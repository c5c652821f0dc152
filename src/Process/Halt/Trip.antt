-- ===== src/Process/Halt/Trip.antt =====
-- A program is started by `syscall_execute` of syscall.c and ends by `syscall_halt`.
use mathlib.Core.Path.{subst}
use light_os_a_linus_like_os.Common.{
  ==_self, ==_no, ℕ, ◌+◌, ◌*◌, ◌/◌, ◌%◌, ◌^◌, ◌≤◌, ◌<◌, ◌≡◌, refl, ◌≢◌, ap, sym, ◌∙◌, ℤ, Option,
  length, arith,
}
use light_os_a_linus_like_os.Memory.{Bytes, load32}
use light_os_a_linus_like_os.Kernel.{same_self, Kernel, Cpu}
use light_os_a_linus_like_os.Paging.{
  paging_execute, paging_video_memory, virtual_address_program_start, user_pde,
}
use light_os_a_linus_like_os.Process.Switching.{context_switch_execute}
use light_os_a_linus_like_os.Process.Execute.{start_process, load_program}
use light_os_a_linus_like_os.Process.Halt.{syscall_halt}
use light_os_a_linus_like_os.Process.Halt.Parent.{Returns, syscall_halt-Returns}

-- What the start of process `pid` leaves.
pub record Starts (pid : ℕ) (k k' : Kernel) : Type 0 where
  pub is_active : k'.active_pid ≡ pid
  pub has_parent : (k'.pcbs pid).parent_pid ≡ k.active_pid
  pub has_process : (k'.terminals k.active_terminal).current_process_id ≡ pid
  pub is_mapped :
      k'.page_dir (virtual_address_program_start / 2 ^ 22)
      ≡ user_pde ((0x00400 + 0x00400 + pid * 0x00400) % 2 ^ 20)
  pub keeps_ebp : (k'.pcbs k.active_pid).current_ebp ≡ k.cpu.ebp
  pub keeps_terminal : (k'.pcbs k.active_pid).terminal ≡ (k.pcbs k.active_pid).terminal
  pub keeps_processes : k'.processes ≡ k.processes

start_process-Starts :
    (boot : Option Bytes) (inode : ℤ) (pid : ℕ) (k : Kernel)
    → pid ≢ k.active_pid
    → Starts pid k (start_process boot inode pid k)
unfolding start_process load_program context_switch_execute paging_execute paging_video_memory
start_process-Starts boot inode pid k h = record {
  is_active = refl;
  has_parent = rw (==_no k.active_pid pid (λ e. h (sym e)), ==_self pid) refl;
  has_process = rw (same_self k.active_terminal) refl;
  is_mapped = refl;
  keeps_ebp = rw (==_self k.active_pid) refl;
  keeps_terminal = rw (==_self k.active_pid, ==_no pid k.active_pid h) refl;
  keeps_processes = refl;
}

halts :
    (pid parent status : ℕ) (k : Kernel)
    → k.active_pid ≡ pid
    → (k.pcbs pid).parent_pid ≡ parent
    → 4 ≤ pid
    → pid < 7
    → length k.processes ≡ 7
    → parent ≢ pid
    → Returns pid parent status k (syscall_halt status k)
halts pid parent status k a p lo hi n d =
    let q : (k.pcbs k.active_pid).parent_pid ≡ parent = ap (λ i. (k.pcbs i).parent_pid) a ∙ p in
    subst (λ i. Returns i parent status k (syscall_halt status k)) a
      (subst (λ j. Returns k.active_pid j status k (syscall_halt status k)) q
        (syscall_halt-Returns status k (omega arith) (omega arith) n (λ e. d (sym q ∙ e ∙ a))))

-- A process starts a program, which runs and leaves whatever it likes in the registers and in
-- memory, and then halts: the process that started it goes on with the status where
-- its `syscall_execute` was called, that is by leaving the frame that its frame pointer named, with
-- its own program mapped; and the slot of the program is free.
pub execute_halt :
    (boot : Option Bytes) (inode : ℤ) (pid status : ℕ) (k : Kernel) (c : Cpu) (m : Bytes)
    → 4 ≤ pid
    → pid < 7
    → pid ≢ k.active_pid
    → length k.processes ≡ 7
    → let ran = record (start_process boot inode pid k) { cpu = c; memory = m } in
      let k' = syscall_halt status ran in
      Returns pid k.active_pid status ran k'
      × (k'.active_terminal ≡ (k.pcbs k.active_pid).terminal)
      × (k'.cpu.esp ≡ k.cpu.ebp + 8)
      × (k'.cpu.ebp ≡ load32 m k.cpu.ebp)
      × (k'.cpu.eip ≡ load32 m (k.cpu.ebp + 4))
execute_halt boot inode pid status k c m lo hi d n =
    let s = start_process-Starts boot inode pid k d in
    let ran = record (start_process boot inode pid k) { cpu = c; memory = m } in
    let r : Returns pid k.active_pid status ran (syscall_halt status ran) =
      halts pid k.active_pid status ran s.is_active s.has_parent lo hi
        (ap length s.keeps_processes ∙ n) (λ e. d (sym e)) in
    (
      r,
      r.has_terminal ∙ s.keeps_terminal,
      r.has_esp ∙ ap (λ b. b + 8) s.keeps_ebp,
      r.has_ebp ∙ ap (λ b. load32 m b) s.keeps_ebp,
      r.has_eip ∙ ap (λ b. load32 m (b + 4)) s.keeps_ebp,
    )
