-- ===== src/Process/Halt/Parent.antt =====
-- A process that halts gives the processor back to its parent.
use light_os_a_linus_like_os.Common.{
  ==_self, ==_no, ℕ, zero, suc, ◌+◌, ◌*◌, ◌/◌, ◌%◌, ◌^◌, ◌-◌, ◌≤◌, ◌<◌, ◌≡◌, refl, ◌≢◌, sym, ◌∙◌,
  false, leb, Bool-cases, inl, inr, arith, pos, get_or, length, is_failure, get_or-set_self,
}
use light_os_a_linus_like_os.Memory.{load32}
use light_os_a_linus_like_os.Kernel.{same_self, Kernel, Pcb}
use light_os_a_linus_like_os.Descriptors.{file_descriptor_table_close, max_num_files, descriptor}
use light_os_a_linus_like_os.FileSystem.Ops.{file_close}
use light_os_a_linus_like_os.Paging.{
  paging_execute, paging_video_memory, virtual_address_program_start, user_pde,
}
use light_os_a_linus_like_os.Process.Pool.{release_process}
use light_os_a_linus_like_os.Process.Switching.{context_switch_halt}
use light_os_a_linus_like_os.Process.Halt.{syscall_halt, halt_process, close_from}

close-parent_pid :
    (i : ℕ) (p : Pcb) → (file_descriptor_table_close (pos i) p).1.parent_pid ≡ p.parent_pid
unfolding file_descriptor_table_close
close-parent_pid i p = elim (Bool-cases (leb max_num_files i)) [
  | inl e ↦ rw e refl
  | inr e ↦ elim (Bool-cases (is_failure (file_close (descriptor p i).inode).0)) [
    | inl f ↦ rw (e, f) refl
    | inr f ↦ rw (e, f) refl
  ]
]

close_from-parent_pid : (rounds i : ℕ) (p : Pcb) → (close_from rounds i p).parent_pid ≡ p.parent_pid
unfolding close_from
close_from-parent_pid zero i p = refl
close_from-parent_pid (suc rounds) i p =
    close_from-parent_pid rounds (suc i) _ ∙ close-parent_pid i p

-- What a halt with `status` leaves, for process `pid` with parent `parent`.
pub record Returns (pid parent status : ℕ) (k k' : Kernel) : Type 0 where
  pub is_active : k'.active_pid ≡ parent
  pub has_terminal : k'.active_terminal ≡ (k.pcbs parent).terminal
  pub has_process : (k'.terminals k'.active_terminal).current_process_id ≡ parent
  pub is_freed : get_or k'.processes pid 1 ≡ 0
  pub is_counted : k'.process_count ≡ k.process_count - 1
  pub is_mapped :
      k'.page_dir (virtual_address_program_start / 2 ^ 22)
      ≡ user_pde ((0x00400 + 0x00400 + parent * 0x00400) % 2 ^ 20)
  pub has_status : k'.cpu.eax ≡ status
  pub has_esp : k'.cpu.esp ≡ (k.pcbs parent).current_ebp + 8
  pub has_ebp : k'.cpu.ebp ≡ load32 k.memory (k.pcbs parent).current_ebp
  pub has_eip : k'.cpu.eip ≡ load32 k.memory ((k.pcbs parent).current_ebp + 4)

not_above : (a : ℕ) → a < 7 → leb 7 a ≡ false
not_above a h = ground arith

-- When a process that is not one of the three shells halts, its slot of the pool becomes free and
-- its parent goes on: the parent's program is mapped, the parent has the processor and its
-- terminal, and the status is returned by way of the stack frame that the parent's
-- `syscall_execute` left.
pub syscall_halt-Returns :
    (status : ℕ) (k : Kernel)
    → 4 ≤ k.active_pid
    → k.active_pid < 7
    → length k.processes ≡ 7
    → (k.pcbs k.active_pid).parent_pid ≢ k.active_pid
    → Returns k.active_pid (k.pcbs k.active_pid).parent_pid status k (syscall_halt status k)
unfolding syscall_halt halt_process release_process context_switch_halt paging_execute
    paging_video_memory
syscall_halt-Returns status k lo hi n d =
    rw
      (
        ==_no k.active_pid 1 (omega arith),
        ==_no k.active_pid 2 (omega arith),
        ==_no k.active_pid 3 (omega arith),
        not_above k.active_pid hi,
        ==_self k.active_pid,
        close_from-parent_pid 8 0 (k.pcbs k.active_pid),
        ==_no k.active_pid (k.pcbs k.active_pid).parent_pid (λ e. d (sym e)),
      )
      (record {
        is_active = refl;
        has_terminal = refl;
        has_process = rw (same_self (k.pcbs (k.pcbs k.active_pid).parent_pid).terminal) refl;
        is_freed = get_or-set_self k.processes k.active_pid 0 1 (omega arith);
        is_counted = refl;
        is_mapped = refl;
        has_status = refl;
        has_esp = refl;
        has_ebp = refl;
        has_eip = refl;
      })
