-- ===== src/Process/Schedule/Turns.antt =====
-- What a timer interrupt does: the processor goes round the terminals.

use light_os_a_linus_like_os.Common.{
  ==_yes, ==_no, ℕ, ◌+◌, ◌*◌, ◌/◌, ◌%◌, ◌^◌, ◌≡◌, refl, ◌≢◌, ap, sym, ◌∙◌, true,
}
use light_os_a_linus_like_os.Kernel.{TerminalId, terminal_1, terminal_2, terminal_3, Kernel, Cpu}
use light_os_a_linus_like_os.Paging.{
  paging_execute, paging_video_memory, virtual_address_program_start, user_pde,
}
use light_os_a_linus_like_os.Process.Schedule.{schedule, next_terminal}

-- Process `pid` has been given the processor, with this stack, and its program is mapped.
pub record Runs (pid : ℕ) (esp ebp : ℕ) (k : Kernel) : Type 0 where
  pub is_active : k.active_pid ≡ pid
  pub has_esp : k.cpu.esp ≡ esp
  pub has_ebp : k.cpu.ebp ≡ ebp
  pub is_mapped :
      k.page_dir (virtual_address_program_start / 2 ^ 22)
      ≡ user_pde ((0x00400 + 0x00400 + pid * 0x00400) % 2 ^ 20)
  pub is_interruptible : k.cpu.interrupts ≡ true

-- The stack that is stored in a control block.
abbrev pub HasStack : ℕ → ℕ → ℕ → Kernel → Type 0
HasStack pid esp ebp k = ((k.pcbs pid).current_esp ≡ esp) × ((k.pcbs pid).current_ebp ≡ ebp)

-- What one switch from `k` to `k'` does.
pub record Turns (k k' : Kernel) : Type 0 where
  pub turns : k'.active_terminal ≡ next_terminal k.active_terminal
  pub keeps_terminals : k'.terminals ≡ k.terminals
  pub saves : HasStack k.active_pid k.cpu.esp k.cpu.ebp k'
  pub keeps_stacks :
      (pid esp ebp : ℕ) → pid ≢ k.active_pid → HasStack pid esp ebp k → HasStack pid esp ebp k'

-- The process that has the foreground of a terminal.
abbrev pub process_of : Kernel → TerminalId → ℕ
process_of k id = (k.terminals id).current_process_id

-- When the next terminal has a process, and that is not the one that is interrupted, `schedule`
-- stores the stack of the interrupted process in its control block, keeps the stacks of all
-- others, and gives the processor to the process of the next terminal, on the stack that is
-- stored for it and with its program mapped.
pub schedule-Runs :
    (k : Kernel) (esp ebp : ℕ)
    → process_of k (next_terminal k.active_terminal) ≢ 0
    → process_of k (next_terminal k.active_terminal) ≢ k.active_pid
    → HasStack (process_of k (next_terminal k.active_terminal)) esp ebp k
    → Runs (process_of k (next_terminal k.active_terminal)) esp ebp (schedule k)
      × Turns k (schedule k)
unfolding schedule paging_execute paging_video_memory
schedule-Runs k esp ebp z n (s, b) =
    rw
      (
        ==_no (process_of k (next_terminal k.active_terminal)) 0 z,
        ==_no k.active_pid (process_of k (next_terminal k.active_terminal)) (λ q. n (sym q)),
      )
      (
        record {
          is_active = refl;
          has_esp = s;
          has_ebp = b;
          is_mapped = refl;
          is_interruptible = refl;
        },
        record {
          turns = refl;
          keeps_terminals = refl;
          saves = rw (==_yes k.active_pid k.active_pid refl) (refl, refl);
          keeps_stacks =
              λ pid esp' ebp' m (s', b'). rw (==_no k.active_pid pid (λ q. m (sym q))) (s', b');
        },
      )

-- Each terminal has a process, and no two the same.
pub record HasProcesses (k : Kernel) : Type 0 where
  pub all_run : (id : TerminalId) → process_of k id ≢ 0
  pub all_differ : (id : TerminalId) → process_of k id ≢ process_of k (next_terminal id)
  pub has_turn : k.active_pid ≡ process_of k k.active_terminal

cycle : (id : TerminalId) → next_terminal (next_terminal (next_terminal id)) ≡ id
cycle terminal_1 = refl
cycle terminal_2 = refl
cycle terminal_3 = refl

-- The process of the next terminal is not the one that is interrupted.
next-differs :
    (k : Kernel) → HasProcesses k → process_of k (next_terminal k.active_terminal) ≢ k.active_pid
next-differs k h e = h.all_differ k.active_terminal (sym (e ∙ h.has_turn))

-- What each of the switches of a round does, from a kernel with the processes of `k`, to any stack
-- that is stored.
turn :
    (k : Kernel) (c : Cpu) (esp ebp : ℕ)
    → HasProcesses k
    → HasStack (process_of k (next_terminal k.active_terminal)) esp ebp k
    → let k' = schedule (record k { cpu = c }) in
      Runs (process_of k (next_terminal k.active_terminal)) esp ebp k'
      × Turns (record k { cpu = c }) k'
turn k c esp ebp h s =
    schedule-Runs (record k { cpu = c }) esp ebp (h.all_run (next_terminal k.active_terminal))
      (next-differs k h) s

-- The terminals of `k`, with the next one's turn.
record Follows (k k' : Kernel) : Type 0 where
  has_processes : HasProcesses k'
  same_processes : (id : TerminalId) → process_of k' id ≡ process_of k id
  next_turn : k'.active_terminal ≡ next_terminal k.active_terminal
  is_new : k.active_pid ≢ k'.active_pid

turn-Follows : (k : Kernel) (c : Cpu) → HasProcesses k → Follows k (schedule (record k { cpu = c }))
turn-Follows k c h =
    let (r, t) = turn k c _ _ h (refl, refl) in
    let same = λ (id : TerminalId). ap (λ ts. (ts id).current_process_id) t.keeps_terminals in
    record {
      has_processes = record {
        all_run = λ id e. h.all_run id (sym (same id) ∙ e);
        all_differ = λ id e. h.all_differ id (sym (same id) ∙ e ∙ same (next_terminal id));
        has_turn =
            r.is_active
            ∙ sym (same (next_terminal k.active_terminal))
            ∙ ap (process_of (schedule (record k { cpu = c }))) (sym t.turns);
      };
      same_processes = same;
      next_turn = t.turns;
      is_new = λ e. next-differs k h (sym r.is_active ∙ sym e);
    }

-- The stack of a process that is not interrupted outlasts a turn.
turn-HasStack :
    (k : Kernel) (c : Cpu) (pid esp ebp : ℕ)
    → HasProcesses k
    → pid ≢ k.active_pid
    → HasStack pid esp ebp k
    → HasStack pid esp ebp (schedule (record k { cpu = c }))
turn-HasStack k c pid esp ebp h n s =
    let (r, t) = turn k c _ _ h (refl, refl) in t.keeps_stacks pid esp ebp n s

turn-saves : (k : Kernel) → HasProcesses k → HasStack k.active_pid k.cpu.esp k.cpu.ebp (schedule k)
turn-saves k h = let (r, t) = turn k k.cpu _ _ h (refl, refl) in t.saves

turn-resumes :
    (k : Kernel) (c : Cpu) (pid esp ebp : ℕ)
    → HasProcesses k
    → process_of k (next_terminal k.active_terminal) ≡ pid
    → HasStack pid esp ebp k
    → Runs pid esp ebp (schedule (record k { cpu = c }))
turn-resumes k c pid esp ebp h e s = let (r, t) = turn k c esp ebp h (rw e s) in rw (← e) r

-- When each terminal has a process of its own, a process that is interrupted gets the processor
-- again at the third interrupt of the timer, on the stack it was interrupted on, whatever the two
-- processes that ran meanwhile left in the registers.
pub schedule_round :
    (k : Kernel) (c1 c2 : Cpu)
    → HasProcesses k
    → let k1 = schedule k in
      let k2 = schedule (record k1 { cpu = c1 }) in
      let k3 = schedule (record k2 { cpu = c2 }) in
      Runs k.active_pid k.cpu.esp k.cpu.ebp k3 × (k3.active_terminal ≡ k.active_terminal)
schedule_round k c1 c2 h =
    let f1 = turn-Follows k k.cpu h in
    let f2 = turn-Follows (schedule k) c1 f1.has_processes in
    let k2 = schedule (record (schedule k) { cpu = c1 }) in
    let f3 = turn-Follows k2 c2 f2.has_processes in
    let back =
      ap next_terminal f2.next_turn
      ∙ ap (λ t. next_terminal (next_terminal t)) f1.next_turn
      ∙ cycle k.active_terminal in
    let mine =
      f2.same_processes _ ∙ f1.same_processes _ ∙ ap (process_of k) back ∙ sym h.has_turn in
    (
      turn-resumes k2 c2 k.active_pid k.cpu.esp k.cpu.ebp f2.has_processes mine (
          turn-HasStack (schedule k) c1 k.active_pid k.cpu.esp k.cpu.ebp f1.has_processes f1.is_new
            (turn-saves k h)),
      f3.next_turn ∙ back,
    )
