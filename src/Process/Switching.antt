-- ===== src/Process/Switching.antt =====
-- The context switches of syscall.c, down to the registers that their inline assembly loads.
use light_os_a_linus_like_os.Common.{ℕ, ◌+◌, ◌-◌, ◌*◌, ◌/◌, ◌%◌, ◌^◌, true}
use light_os_a_linus_like_os.Memory.{load32}
use light_os_a_linus_like_os.Kernel.{
  TerminalId, terminal_1, terminal_2, terminal_3, number, Kernel, set_terminal,
}
use light_os_a_linus_like_os.Paging.{
  paging_execute, paging_video_memory, virtual_address_program_start, kernel_stack_base_address,
}

abbrev pub user_stack_base_address : ℕ
user_stack_base_address = 0x08400000 - 0x4

abbrev pub user_kernel_stack_size : ℕ
user_kernel_stack_size = 0x2000

-- Where the user's 4 MB page stands in physical memory.
abbrev pub user_page : Kernel → ℕ
user_page k = (k.page_dir (virtual_address_program_start / 2 ^ 22)).address * 4096

-- The word at `VIRTUAL_ADDRESS_PROGRAM_START + 24`: the entry point of the program that is mapped.
abbrev pub entry_point : Kernel → ℕ
entry_point k = load32 k.memory (user_page k + (virtual_address_program_start + 24) % 2 ^ 22)

-- `tss.esp0 = KERNEL_STACK_BASE_ADDRESS - (pid - 1) * USER_KERNEL_STACK_SIZE - 0x04`
abbrev pub set_esp0 : ℕ → Kernel → Kernel
set_esp0 pid k = record k {
  esp0 = kernel_stack_base_address + user_kernel_stack_size - pid * user_kernel_stack_size - 0x04;
}

-- `context_switch_execute`: `iret` to the program's entry point, on the user's stack, with
-- interrupts on.
unfoldable pub context_switch_execute : Kernel → Kernel
context_switch_execute k =
    let c = k.cpu in
    record k {
      cpu = record c {
        eax = entry_point k;
        esp = user_stack_base_address;
        eip = entry_point k;
        interrupts = true;
      };
    }

-- `context_switch_halt`: the frame that `syscall_execute` left on the kernel stack of the process
-- that is active now is entered again and left by `leave` and `ret`.
unfoldable pub context_switch_halt : ℕ → Kernel → Kernel
context_switch_halt status k =
    let c = k.cpu in
    let p = k.pcbs k.active_pid in
    record k {
      cpu = record c {
        eax = status;
        esp = p.current_ebp + 8;
        ebp = load32 k.memory p.current_ebp;
        eip = load32 k.memory (p.current_ebp + 4);
      };
    }

-- What the three functions `boot_enter_terminal_1`, `_2` and `_3` do for their terminal.
abbrev enter_shell : TerminalId → Kernel → Kernel
enter_shell i k =
    let t = k.terminals i in
    let k1 = record k { active_terminal = i; active_pid = number i } in
    let k2 = set_terminal i (record t { current_process_id = number i }) k1 in
    context_switch_execute
      (set_esp0 (number i) (paging_video_memory (paging_execute (number i) k2)))

unfoldable pub boot_enter_terminal_1 : Kernel → Kernel
unfolding context_switch_execute
boot_enter_terminal_1 = enter_shell terminal_1

unfoldable pub boot_enter_terminal_2 : Kernel → Kernel
unfolding context_switch_execute
boot_enter_terminal_2 = enter_shell terminal_2

unfoldable pub boot_enter_terminal_3 : Kernel → Kernel
unfolding context_switch_execute
boot_enter_terminal_3 = enter_shell terminal_3

abbrev pub boot_enter : TerminalId → Kernel → Kernel
boot_enter terminal_1 = boot_enter_terminal_1
boot_enter terminal_2 = boot_enter_terminal_2
boot_enter terminal_3 = boot_enter_terminal_3
