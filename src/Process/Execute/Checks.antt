-- ===== src/Process/Execute/Checks.antt =====
-- What `syscall_execute` of syscall.c has checked when it starts a program.
use light_os_a_linus_like_os.Common.{
  ℕ, ◌+◌, ◌-◌, List, Option, none, some, Bool, false, ◌||◌, [], length, ltb,
}
use light_os_a_linus_like_os.Memory.{Bytes}
use light_os_a_linus_like_os.CString.{strlen}
use light_os_a_linus_like_os.Kernel.{Kernel}
use light_os_a_linus_like_os.Process.Command.{word_from}
use light_os_a_linus_like_os.Text.{bytes_of}
use light_os_a_linus_like_os.Process.Execute.{max_arg_length, Execution, refused, started, overrun}

-- The result is a started process.
abbrev pub pid_of : Execution → Option ℕ
pid_of (refused k) = none
pid_of (started pid k) = some pid
pid_of overrun = none

-- The first word of a command, as a string.
abbrev pub name_of : Bytes → Bytes
name_of command = bytes_of (word_from (strlen command + 1) command 0 false []).1

-- The second word.
abbrev argument_of : Bytes → List ℕ
argument_of command =
    let len = strlen command + 1 in
    let i = (word_from len command 0 false []).0 in (word_from (len - i) command i false []).1

abbrev overruns : Bytes → Bool
overruns command =
    ltb 33 (length (word_from (strlen command + 1) command 0 false []).1)
    || ltb max_arg_length (length (argument_of command))
