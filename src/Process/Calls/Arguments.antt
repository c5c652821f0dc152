-- ===== src/Process/Calls/Arguments.antt =====
-- `syscall_getargs` of syscall.c.
use light_os_a_linus_like_os.Common.{
  ℕ, suc, ◌≤◌, ◌<◌, ◌≡◌, refl, ◌≢◌, ◌⊎◌, u32, pos, failure, some, none, leb, if◌then◌else◌, arith,
}
use light_os_a_linus_like_os.Memory.{Bytes, memcpy, memcpy_lem}
use light_os_a_linus_like_os.CString.{strlen}
use light_os_a_linus_like_os.CString.Length.{IsLength, strlen-IsLength}
use light_os_a_linus_like_os.Kernel.{Kernel}
use light_os_a_linus_like_os.Process.Calls.{syscall_getargs}

-- For an argument of `n` characters, `syscall_getargs` copies the characters and the NUL to the
-- front of the buffer and returns 0 when a program has been started with an argument and `n` is at
-- most the number of bytes given; otherwise, and for a NULL buffer, it returns -1 and leaves the
-- buffer as it was.
pub syscall_getargs_lem :
    (buf : Bytes) (nbytes n : ℕ) (k : Kernel)
    → IsLength (k.pcbs k.active_pid).arg_buf n
    → n < u32
    → (k.argument_exist ≢ 0
        → n ≤ nbytes
        → (out : Bytes) × (syscall_getargs (some buf) (pos nbytes) k ≡ (pos 0, some out))
          × ((j : ℕ) → out j ≡ (if leb j n then (k.pcbs k.active_pid).arg_buf j else buf j)))
      × ((k.argument_exist ≡ 0) ⊎ (nbytes < n)
          → syscall_getargs (some buf) (pos nbytes) k ≡ (failure, some buf))
      × (syscall_getargs none (pos nbytes) k ≡ (failure, none))
unfolding syscall_getargs
syscall_getargs_lem buf nbytes n k len small =
    let arg = (k.pcbs k.active_pid).arg_buf in
    let e : strlen arg ≡ n = strlen-IsLength arg n len small in
    (
      λ exists fits. (
        memcpy (suc n) 0 0 arg buf,
        rw e (ground arith),
        λ j. ground (arith, memcpy_lem (suc n) 0 0 arg buf j),
      ),
      λ h. rw e (ground arith),
      refl,
    )
