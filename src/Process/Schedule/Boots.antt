-- ===== src/Process/Schedule/Boots.antt =====
-- The first timer interrupts, which enter the three shells.
use mathlib.Core.Path.{subst}
use light_os_a_linus_like_os.Common.{
  ==_yes, ℕ, ◌+◌, ◌*◌, ◌/◌, ◌%◌, ◌^◌, ◌≡◌, refl, ◌≢◌, ap, sym, ◌∙◌, true, false, if◌then◌else◌,
  arith,
}
use light_os_a_linus_like_os.Kernel.{
  TerminalId, terminal_1, terminal_2, terminal_3, same, number, Kernel, Cpu,
}
use light_os_a_linus_like_os.Paging.{
  paging_execute, paging_video_memory, virtual_address_program_start, user_pde,
}
use light_os_a_linus_like_os.Process.Switching.{
  context_switch_execute, boot_enter, boot_enter_terminal_1, boot_enter_terminal_2,
  boot_enter_terminal_3, user_stack_base_address, entry_point,
}
use light_os_a_linus_like_os.Process.Schedule.{schedule, next_terminal}
use light_os_a_linus_like_os.Process.Schedule.Turns.{HasProcesses, process_of}

-- The shell of a terminal has been entered for the first time: the terminal has the turn and the
-- shell for its process, the shell's page is mapped, and the processor stands at the entry point of
-- the program there, on the user's stack, with interrupts on.
pub record Enters (id : TerminalId) (k k' : Kernel) : Type 0 where
  pub turns : k'.active_terminal ≡ id
  pub is_active : k'.active_pid ≡ number id
  pub has_process :
      (i : TerminalId) → process_of k' i ≡ (if same id i then number id else process_of k i)
  pub is_mapped :
      k'.page_dir (virtual_address_program_start / 2 ^ 22)
      ≡ user_pde ((0x00400 + 0x00400 + number id * 0x00400) % 2 ^ 20)
  pub on_stack : k'.cpu.esp ≡ user_stack_base_address
  pub jumps : k'.cpu.eip ≡ entry_point k'
  pub is_interruptible : k'.cpu.interrupts ≡ true

process_after :
    (id i : TerminalId) (k : Kernel)
    → process_of (boot_enter id k) i ≡ (if same id i then number id else process_of k i)
unfolding boot_enter_terminal_1 boot_enter_terminal_2 boot_enter_terminal_3 context_switch_execute
    paging_execute paging_video_memory
process_after terminal_1 terminal_1 k = refl
process_after terminal_1 terminal_2 k = refl
process_after terminal_1 terminal_3 k = refl
process_after terminal_2 terminal_1 k = refl
process_after terminal_2 terminal_2 k = refl
process_after terminal_2 terminal_3 k = refl
process_after terminal_3 terminal_1 k = refl
process_after terminal_3 terminal_2 k = refl
process_after terminal_3 terminal_3 k = refl

boot_enter-Enters : (id : TerminalId) (k : Kernel) → Enters id k (boot_enter id k)
unfolding boot_enter_terminal_1 boot_enter_terminal_2 boot_enter_terminal_3 context_switch_execute
    paging_execute paging_video_memory
boot_enter-Enters terminal_1 k = record {
  turns = refl;
  is_active = refl;
  has_process = λ i. process_after terminal_1 i k;
  is_mapped = refl;
  on_stack = refl;
  jumps = refl;
  is_interruptible = refl;
}
boot_enter-Enters terminal_2 k = record {
  turns = refl;
  is_active = refl;
  has_process = λ i. process_after terminal_2 i k;
  is_mapped = refl;
  on_stack = refl;
  jumps = refl;
  is_interruptible = refl;
}
boot_enter-Enters terminal_3 k = record {
  turns = refl;
  is_active = refl;
  has_process = λ i. process_after terminal_3 i k;
  is_mapped = refl;
  on_stack = refl;
  jumps = refl;
  is_interruptible = refl;
}

schedule-Enters :
    (k : Kernel)
    → process_of k (next_terminal k.active_terminal) ≡ 0
    → Enters (next_terminal k.active_terminal) k (schedule k)
unfolding schedule
schedule-Enters k z =
    let e = boot_enter-Enters (next_terminal k.active_terminal) _ in
    rw (==_yes (process_of k (next_terminal k.active_terminal)) 0 z) (record {
      turns = e.turns;
      is_active = e.is_active;
      has_process = e.has_process;
      is_mapped = e.is_mapped;
      on_stack = e.on_stack;
      jumps = e.jumps;
      is_interruptible = e.is_interruptible;
    })

distinct :
    (id : TerminalId)
    → (same id (next_terminal id) ≡ false) × (same id (next_terminal (next_terminal id)) ≡ false)
distinct terminal_1 = (refl, refl)
distinct terminal_2 = (refl, refl)
distinct terminal_3 = (refl, refl)

-- Who is entered in three turns from `a` on.
abbrev entered : TerminalId → TerminalId → ℕ → ℕ
entered a i old =
    let first = next_terminal a in
    let second = next_terminal first in
    let third = next_terminal second in
    if same third i
    then number third
    else if same second i
    then number second
    else if same first i
    then number first
    else old

entered-all : (a i : TerminalId) (old : ℕ) → entered a i old ≡ number i
entered-all terminal_1 terminal_1 old = refl
entered-all terminal_1 terminal_2 old = refl
entered-all terminal_1 terminal_3 old = refl
entered-all terminal_2 terminal_1 old = refl
entered-all terminal_2 terminal_2 old = refl
entered-all terminal_2 terminal_3 old = refl
entered-all terminal_3 terminal_1 old = refl
entered-all terminal_3 terminal_2 old = refl
entered-all terminal_3 terminal_3 old = refl

number_positive : (i : TerminalId) → number i ≢ 0
number_positive terminal_1 = omega arith
number_positive terminal_2 = omega arith
number_positive terminal_3 = omega arith

numbers_differ : (i : TerminalId) → number i ≢ number (next_terminal i)
numbers_differ terminal_1 = omega arith
numbers_differ terminal_2 = omega arith
numbers_differ terminal_3 = omega arith

enters :
    (id : TerminalId) (k : Kernel)
    → next_terminal k.active_terminal ≡ id
    → process_of k id ≡ 0
    → Enters id k (schedule k)
enters id k e z =
    subst (λ i. Enters i k (schedule k)) e (schedule-Enters k (ap (process_of k) e ∙ z))

pick :
    (id i : TerminalId) (old : TerminalId → ℕ)
    → same id i ≡ false
    → old i ≡ 0
    → (if same id i then number id else old i) ≡ 0
pick id i old e z = rw e z

all_entered :
    (a i : TerminalId) (old p1 p2 p3 : ℕ)
    → p1 ≡ (if same (next_terminal a) i then number (next_terminal a) else old)
    → p2 ≡ (
        if same (next_terminal (next_terminal a)) i
        then number (next_terminal (next_terminal a))
        else p1)
    → p3 ≡ (
        if same (next_terminal (next_terminal (next_terminal a))) i
        then number (next_terminal (next_terminal (next_terminal a)))
        else p2)
    → p3 ≡ number i
all_entered a i old p1 p2 p3 e1 e2 e3 = e3 ∙ rw (e2, e1) (entered-all a i old)

-- Before any shell has been entered, the first three timer interrupts enter the three shells one
-- after the other, whatever those that ran meanwhile left in the registers; then each terminal
-- has a process, no two the same, and the terminal whose turn it is has the processor.
pub boot_round :
    (k : Kernel) (c1 c2 : Cpu)
    → ((id : TerminalId) → process_of k id ≡ 0)
    → let k1 = schedule k in
      let k2 = schedule (record k1 { cpu = c1 }) in
      let k3 = schedule (record k2 { cpu = c2 }) in
      let first = next_terminal k.active_terminal in
      let second = next_terminal first in
      let third = next_terminal second in
      Enters first k k1
      × Enters second (record k1 { cpu = c1 }) k2
      × Enters third (record k2 { cpu = c2 }) k3
      × HasProcesses k3
      × ((id : TerminalId) → process_of k3 id ≡ number id)
boot_round k c1 c2 zero_pids =
    let a = k.active_terminal in
    let first = next_terminal a in
    let second = next_terminal first in
    let third = next_terminal second in
    let e1 = enters first k refl (zero_pids first) in
    let z1 =
      e1.has_process second
      ∙ pick first second (process_of k) (distinct first).0 (zero_pids second) in
    let k1 = record (schedule k) { cpu = c1 } in
    let e2 = enters second k1 (ap next_terminal e1.turns) z1 in
    let k2 = record (schedule k1) { cpu = c2 } in
    let z2 =
      e2.has_process third
      ∙ pick second third (process_of k1) (distinct second).0 (
          e1.has_process third
          ∙ pick first third (process_of k) (distinct first).1 (zero_pids third)) in
    let e3 = enters third k2 (ap next_terminal e2.turns) z2 in
    let all = λ (i : TerminalId).
      all_entered a i _ _ _ _ (e1.has_process i) (e2.has_process i) (e3.has_process i) in
    (
      e1,
      e2,
      e3,
      record {
        all_run = λ i e. number_positive i (sym (all i) ∙ e);
        all_differ = λ i e. numbers_differ i (sym (all i) ∙ e ∙ all (next_terminal i));
        has_turn =
            e3.is_active ∙ ap number (sym e3.turns) ∙ sym (all (schedule k2).active_terminal);
      },
      all,
    )
