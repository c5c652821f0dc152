-- ===== src/Programs/Shell.antt =====
-- syscalls/ece391shell.c, with ece391_strcmp of ece391support.c: reads commands and executes them.
pub mod Compare
pub mod Reads
pub mod Commands
use light_os_a_linus_like_os.Common.{
  ℕ, zero, suc, ◌-◌, u32, ℤ, pos, negsuc, is_failure, is_positive, to_uint32, sub_ℕ, Option, none,
  some, ◌&&◌, ◌==◌, if◌then◌else◌,
}
use light_os_a_linus_like_os.Memory.{Bytes, update}
use light_os_a_linus_like_os.Text.{codes, bytes_of}
use light_os_a_linus_like_os.FileSystem.Ops.{is_null}
use light_os_a_linus_like_os.Devices.{World}
use light_os_a_linus_like_os.Process.Calls.{syscall_read}
use light_os_a_linus_like_os.Programs.{put_line, filled}

-- The loop of `ece391_strcmp`; `fuel` is the number of addresses.
unfoldable pub strcmp_from : ℕ → Bytes → Bytes → ℕ → ℤ
strcmp_from zero s1 s2 i = pos 0
strcmp_from (suc fuel) s1 s2 i =
    let rest = strcmp_from fuel s1 s2 (suc i) in
    if s1 i == s2 i then (if s1 i == 0 then pos 0 else rest) else sub_ℕ (s1 i) (s2 i)

unfoldable pub ece391_strcmp : Bytes → Bytes → ℤ
unfolding strcmp_from
ece391_strcmp s1 s2 = strcmp_from u32 s1 s2 0

-- `BUFSIZE`
abbrev pub bufsize : ℕ
bufsize = 1024

-- The newline goes, and a NUL stands behind the command.
abbrev pub command : ℤ → Bytes → Bytes
command cnt buf =
    let n = to_uint32 cnt in
    let last = if is_positive cnt && buf (n - 1) == b'\n' then n - 1 else n in update buf last 0

module _ (boot : Option Bytes) where
  -- What is said about the result of a command.
  unfoldable pub report : ℤ → World → World
  report (negsuc zero) w = put_line boot "no such command\n" w
  report (negsuc (suc n)) w = put_line boot "program terminated abnormally\n" w
  report (pos zero) w = w
  report (pos (suc n)) w =
      if suc n == 256
      then put_line boot "program terminated by exception\n" w
      else put_line boot "program terminated abnormally\n" w

-- `execute` is the call of `ece391_execute`: its result, and what the program that is started and
-- the kernel have done until it returns.
module _ (boot : Option Bytes) (execute : Bytes → World → ℤ × World) where
  -- The loop of `main`, with `rounds` left: the exit status, and `none` if it has not ended.
  unfoldable pub shell_loop : ℕ → Bytes → World → Option (ℕ × World)
  shell_loop zero buf w = none
  shell_loop (suc rounds) buf w =
      let (w1, cnt, read) =
        syscall_read boot (pos 0) (some buf) (pos (bufsize - 1)) (put_line boot "391OS> " w) in
      let text = command cnt (filled buf read) in
      let (rval, w2) = execute text w1 in
      let rest = λ (v : World). shell_loop rounds text v in
      if is_failure cnt
      then some (3, put_line boot "read from keyboard failed\n" w1)
      else if is_null (ece391_strcmp text (bytes_of (codes "exit")))
      then some (0, w1)
      else if text 0 == 0
      then rest w1
      else rest (report boot rval w2)

  unfoldable pub shell : ℕ → Bytes → World → Option (ℕ × World)
  unfolding shell_loop
  shell rounds stack w = shell_loop rounds stack (put_line boot "Starting 391 Shell\n" w)
