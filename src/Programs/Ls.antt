-- ===== src/Programs/Ls.antt =====
-- syscalls/ece391ls.c: prints the names in the directory.
pub mod Lines
pub mod Loop
pub mod Prints
use light_os_a_linus_like_os.Common.{
  ℕ, zero, suc, ◌+◌, ◌-◌, ◌%◌, u32, ℤ, pos, is_failure, to_int32, to_uint32, Option, none, some,
  if◌then◌else◌,
}
use light_os_a_linus_like_os.Memory.{Bytes, update}
use light_os_a_linus_like_os.Text.{codes, bytes_of}
use light_os_a_linus_like_os.FileSystem.Ops.{is_null}
use light_os_a_linus_like_os.Devices.{World, set_kernel}
use light_os_a_linus_like_os.Process.Calls.{syscall_open, syscall_read, syscall_write}
use light_os_a_linus_like_os.Programs.{put_line, filled}

-- `SBUFSIZE`
abbrev pub sbufsize : ℕ
sbufsize = 33

-- `buf[cnt] = '\n'`, and `cnt + 1`.
abbrev end_line : ℤ → Bytes → Bytes
end_line cnt buf = update buf (to_uint32 cnt) b'\n'

abbrev one_more : ℤ → ℤ
one_more cnt = to_int32 ((to_uint32 cnt + 1) % u32)

-- The loop of `main`, with `rounds` left: the exit status, and `none` if it has not ended. `boot`
-- is the kernel's `boot_block_pointer`.
unfoldable pub ls_loop : Option Bytes → ℕ → ℤ → Bytes → World → Option (ℕ × World)
ls_loop boot zero fd buf w = none
ls_loop boot (suc rounds) fd buf w =
    let (w1, cnt, read) = syscall_read boot fd (some buf) (pos (sbufsize - 1)) w in
    let line = end_line cnt (filled buf read) in
    let (w2, written, buf2) = syscall_write boot (pos 1) (some line) (one_more cnt) w1 in
    let rest = ls_loop boot rounds fd line w2 in
    if is_null cnt
    then some (0, w1)
    else if is_failure cnt
    then some (3, put_line boot "directory entry read failed\n" w1)
    else if is_failure written
    then some (3, w2)
    else rest

-- `main`, with what `buf` holds at the start.
unfoldable pub ls : Option Bytes → ℕ → Bytes → World → Option (ℕ × World)
ls boot rounds stack w =
    let (fd, k) = syscall_open boot (some (bytes_of (codes "."))) w.kernel in
    let w1 = set_kernel k w in
    if is_failure fd
    then some (2, put_line boot "directory open failed\n" w1)
    else ls_loop boot rounds fd stack w1
