-- ===== src/Programs/Cat.antt =====
-- syscalls/ece391cat.c: prints the file that its argument names.
pub mod Loop
pub mod Prints
use light_os_a_linus_like_os.Common.{
  ℕ, zero, suc, ℤ, pos, negsuc, is_failure, Option, none, some, Bool, true, false, if◌then◌else◌,
}
use light_os_a_linus_like_os.Memory.{Bytes}
use light_os_a_linus_like_os.FileSystem.Ops.{is_null}
use light_os_a_linus_like_os.Devices.{World, set_kernel}
use light_os_a_linus_like_os.Process.Calls.{
  syscall_open, syscall_read, syscall_write, syscall_getargs,
}
use light_os_a_linus_like_os.Programs.{put_line, filled}

-- The loop of `main`, with `rounds` left: the exit status, and `none` if it has not ended. `boot`
-- is the kernel's `boot_block_pointer`.
unfoldable pub cat_loop : Option Bytes → ℕ → ℤ → Bytes → World → Option (ℕ × World)
cat_loop boot zero fd buf w = none
cat_loop boot (suc rounds) fd buf w =
    let (w1, cnt, buf1) = syscall_read boot fd (some buf) (pos 1024) w in
    let (w2, written, buf2) = syscall_write boot (pos 1) (some (filled buf buf1)) cnt w1 in
    let rest = cat_loop boot rounds fd (filled buf buf1) w2 in
    if is_null cnt
    then some (0, w1)
    else if is_failure cnt
    then some (3, put_line boot "file read failed\n" w1)
    else if is_failure written
    then some (3, w2)
    else rest

-- `main`, with what `buf` holds at the start.
unfoldable pub cat : Option Bytes → ℕ → Bytes → World → Option (ℕ × World)
cat boot rounds stack w =
    let (result, buf) = syscall_getargs (some stack) (pos 1024) w.kernel in
    let (fd, k) = syscall_open boot (some (filled stack buf)) w.kernel in
    let w1 = set_kernel k w in
    if is_null result
    then (if is_failure fd
        then some (2, put_line boot "file not found\n" w1)
        else cat_loop boot rounds fd (filled stack buf) w1)
    else some (3, put_line boot "could not read arguments\n" w)
