-- ===== src/Process/Boot/Keeps.antt =====
-- What the set-up of the shells in syscall.c leaves as it was.
use light_os_a_linus_like_os.Common.{
  ◌≡◌, refl, ◌∙◌, ℤ, failure, is_failure, Option, none, some, not, ◌||◌, Bool-cases, inl, inr,
}
use light_os_a_linus_like_os.Memory.{Bytes}
use light_os_a_linus_like_os.Kernel.{
  TerminalId, terminal_1, terminal_2, terminal_3, same, same→eq, Terminal, Kernel,
}
use light_os_a_linus_like_os.Text.{codes, bytes_of}
use light_os_a_linus_like_os.FileSystem.{read_data}
use light_os_a_linus_like_os.FileSystem.Ops.{file_open}
use light_os_a_linus_like_os.Paging.{paging_execute}
use light_os_a_linus_like_os.Process.Execute.{is_executable, load_program}
use light_os_a_linus_like_os.Process.Boot.{
  set_up_shell, check_shell, open_shell, create_shell, create_terminal_1_shell,
  create_terminal_2_shell, create_terminal_3_shell,
}

-- No process runs in a terminal, or as before.
abbrev idle : Terminal → Terminal
idle t = record t { current_process_id = 0 }

-- Only which process runs in the terminals may have changed, and to none.
pub record KeepsIdle (k k' : Kernel) : Type 0 where
  pub active : k'.active_terminal ≡ k.active_terminal
  pub current : k'.current_terminal ≡ k.current_terminal
  pub table : k'.pg_tab_1 ≡ k.pg_tab_1
  pub stack : k'.esp0 ≡ k.esp0
  pub terminals : (i : TerminalId) → idle (k'.terminals i) ≡ idle (k.terminals i)
  pub none_run :
      ((i : TerminalId) → (k.terminals i).current_process_id ≡ 0)
      → (i : TerminalId) → (k'.terminals i).current_process_id ≡ 0

KeepsIdle-same : (k : Kernel) → KeepsIdle k k
KeepsIdle-same k = record {
  active = refl;
  current = refl;
  table = refl;
  stack = refl;
  terminals = λ i. refl;
  none_run = λ h. h;
}

pub KeepsIdle-trans : (a b c : Kernel) → KeepsIdle a b → KeepsIdle b c → KeepsIdle a c
KeepsIdle-trans a b c p q = record {
  active = q.active ∙ p.active;
  current = q.current ∙ p.current;
  table = q.table ∙ p.table;
  stack = q.stack ∙ p.stack;
  terminals = λ i. q.terminals i ∙ p.terminals i;
  none_run = λ h. q.none_run (p.none_run h);
}

set_up_shell-KeepsIdle :
    (i : TerminalId) (boot : Option Bytes) (inode : ℤ) (k : Kernel)
    → KeepsIdle k (set_up_shell i boot inode k)
unfolding load_program paging_execute
set_up_shell-KeepsIdle i boot inode k = record {
  active = refl;
  current = refl;
  table = refl;
  stack = refl;
  terminals =
      λ j. elim (Bool-cases (same i j)) [ inl e ↦ rw (e, same→eq i j e) refl | inr e ↦ rw e refl ];
  none_run = λ h j. elim (Bool-cases (same i j)) [ inl e ↦ rw e refl | inr e ↦ rw e (h j) ];
}

check_shell-KeepsIdle :
    (i : TerminalId) (boot : Option Bytes) (inode : ℤ) (r : ℤ × Option Bytes) (k : Kernel)
    → KeepsIdle k (check_shell i boot inode r k)
check_shell-KeepsIdle i boot inode (count, none) k = KeepsIdle-same k
check_shell-KeepsIdle i boot inode (count, some buf) k =
    elim (Bool-cases (is_failure count || not (is_executable buf))) [
      | inl e ↦ rw e (KeepsIdle-same k)
      | inr e ↦ rw e (set_up_shell-KeepsIdle i boot inode k)
    ]

create_shell-KeepsIdle :
    (i : TerminalId) (boot : Option Bytes) (stack : Bytes) (k : Kernel)
    → KeepsIdle k (create_shell i boot stack k)
create_shell-KeepsIdle i boot stack k =
    opened (file_open boot failure (some (bytes_of (codes "shell"))))
  where
    opened : (r : ℤ × ℤ) → KeepsIdle k (open_shell i boot stack r k)
    opened (result, inode) = elim (Bool-cases (is_failure result)) [
      | inl e ↦ rw e (KeepsIdle-same k)
      | inr e ↦ rw e (check_shell-KeepsIdle i boot inode (read_data boot inode 0 (some stack) 4) k)
    ]

pub shells-KeepsIdle :
    (boot : Option Bytes) (stack : Bytes) (k : Kernel)
    → KeepsIdle k (
        create_terminal_3_shell boot stack
          (create_terminal_2_shell boot stack (create_terminal_1_shell boot stack k)))
unfolding create_terminal_1_shell create_terminal_2_shell create_terminal_3_shell
shells-KeepsIdle boot stack k =
    let k1 = create_shell terminal_1 boot stack k in
    let k2 = create_shell terminal_2 boot stack k1 in
    let k3 = create_shell terminal_3 boot stack k2 in
    KeepsIdle-trans k k1 k3 (create_shell-KeepsIdle terminal_1 boot stack k) (
      KeepsIdle-trans k1 k2 k3 (create_shell-KeepsIdle terminal_2 boot stack k1)
        (create_shell-KeepsIdle terminal_3 boot stack k2))
