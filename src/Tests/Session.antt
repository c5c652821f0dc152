-- ===== src/Tests/Session.antt =====
-- Example for the shell: the command `ls`, typed with a correction.
use light_os_a_linus_like_os.Common.{
  ℕ, zero, suc, ◌<◌, ◌≡◌, refl, ◌≢◌, ℤ, pos, inl, inr, none, some, true, [], ◌∷◌, get_or, replicate,
  arith,
}
use light_os_a_linus_like_os.Memory.{Bytes}
use light_os_a_linus_like_os.CString.Length.{IsLength}
use light_os_a_linus_like_os.Kernel.{Pcb, terminal_file_ops_stdin, terminal_file_ops_stdout}
use light_os_a_linus_like_os.Keyboard.{key_of}
use light_os_a_linus_like_os.TerminalDriver.Typing.Reads.{IsIdle}
use light_os_a_linus_like_os.Devices.{World}
use light_os_a_linus_like_os.Programs.Shell.{report, shell_loop}
use light_os_a_linus_like_os.Programs.Shell.Commands.{shell_loop-executes}
use light_os_a_linus_like_os.Tests.{zeros, process, used, unused, kernel}
use light_os_a_linus_like_os.Tests.Screens.{
  presses, table, let_go, IsPlain-l, IsPlain-s, IsPlain-enter, lower_l, lower_s, lower_enter,
}

abbrev shell_process : Pcb
shell_process =
    let p = process 1 in
    record p {
      file_descriptor_array =
          record used { file_ops = some terminal_file_ops_stdin }
          ∷ record used { file_ops = some terminal_file_ops_stdout }
          ∷ replicate 6 unused;
    }

-- Behind Enter another key is pressed.
abbrev start : World
start = record {
  kernel = record kernel { pcbs = λ pid. shell_process };
  inputs = 0x26 ∷ 0x1F ∷ 0x0E ∷ 0x9F ∷ 0x1F ∷ 0x1C ∷ 0x1E ∷ [];
  ticks = 0;
  is_running = true;
}

-- A program that succeeds at once.
abbrev succeed : Bytes → World → ℤ × World
succeed text w = (pos 0, w)

start-IsIdle : IsIdle start.kernel
start-IsIdle = record { scheduled = refl; no_control = refl; empty = refl; buffer = refl }

same_keys : (other : ℕ) → key_of other start.kernel ≡ table other
unfolding key_of
same_keys other = refl

letters : (j : ℕ) → j < 2 → get_or (table 0x26 ∷ table 0x1F ∷ []) j 0 ≢ 0
unfolding key_of
letters zero h = omega arith
letters (suc zero) h = omega arith
letters (suc (suc j)) h = absurd (omega arith)

shell_loop-executes_example :
    (w1 : World) × (text : Bytes) × (shell_loop none succeed 5 zeros start
      ≡ shell_loop none succeed 4 text (report none (pos 0) w1))
    × (w1.inputs ≡ 0x1E ∷ [])
    × IsLength text 2
    × ((j : ℕ) → j < 2 → text j ≡ get_or (table 0x26 ∷ table 0x1F ∷ []) j 0)
shell_loop-executes_example =
    shell_loop-executes none succeed 4 zeros start table 0x1C 2 presses (0x1E ∷ []) refl refl
      start-IsIdle same_keys IsPlain-enter lower_enter
      (
        inl (IsPlain-l, lower_l, omega arith),
        (
          inl (IsPlain-s, lower_s, omega arith),
          (inr (inl (refl, refl)), (inr (inr let_go), (inl (IsPlain-s, lower_s, omega arith), tt))),
        ),
      )
      refl (omega arith) (omega arith) letters (omega arith) (omega arith)
