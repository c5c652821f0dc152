-- ===== src/Process/Schedule.antt =====
-- `schedule` of syscall.c, which the timer's interrupt calls.
pub mod Turns
pub mod Boots
use light_os_a_linus_like_os.Common.{◌/◌, ◌%◌, ◌^◌, ℕ, not, ◌==◌, if◌then◌else◌}
use light_os_a_linus_like_os.Kernel.{
  TerminalId, terminal_1, terminal_2, terminal_3, Kernel, set_pcb, cli, sti, outb,
}
use light_os_a_linus_like_os.I8259.{enable_irq, send_eoi}
use light_os_a_linus_like_os.Paging.{paging_execute, paging_video_memory}
use light_os_a_linus_like_os.Process.Switching.{set_esp0, boot_enter}

-- The terminal after this one. The pointer is never NULL, so that test of the last branch is left
-- out.
abbrev pub next_terminal : TerminalId → TerminalId
next_terminal terminal_1 = terminal_2
next_terminal terminal_2 = terminal_3
next_terminal terminal_3 = terminal_1

-- The process whose stack is saved when the next terminal has no shell yet: the shell that the
-- terminal before it got.
abbrev pub previous_shell : TerminalId → ℕ
previous_shell terminal_1 = 3
previous_shell terminal_2 = 1
previous_shell terminal_3 = 2

-- The stack registers go to the control block of a process, and come from there.
abbrev pub save_stack : ℕ → Kernel → Kernel
save_stack pid k =
    let p = k.pcbs pid in
    set_pcb pid (record p { current_esp = k.cpu.esp; current_ebp = k.cpu.ebp }) k

abbrev load_stack : ℕ → Kernel → Kernel
load_stack pid k =
    let p = k.pcbs pid in
    let c = k.cpu in record k { cpu = record c { esp = p.current_esp; ebp = p.current_ebp } }

unfoldable pub schedule : Kernel → Kernel
schedule k =
    let original_pid = k.active_pid in
    let next = next_terminal k.active_terminal in
    let pid = (k.terminals next).current_process_id in
    let k1 = record k { active_terminal = next; active_pid = pid } in
    if pid == 0
    then boot_enter next (save_stack (previous_shell next) k1)
    else load_stack pid
        (sti (paging_video_memory (paging_execute pid (set_esp0 pid (save_stack original_pid k1)))))

-- pit.c: the timer's set-up (mode 3, a divisor of 11931, which is 100 interrupts a second) and its
-- handler.
abbrev pit_freq : ℕ
pit_freq = 1193182 / 100

unfoldable pub pit_init : (ℕ → ℕ) → Kernel → Kernel
pit_init inb k =
    enable_irq inb 0
      (outb (pit_freq / 2 ^ 8) 0x40 (outb (pit_freq % 2 ^ 8) 0x40 (outb 0x36 0x43 k)))

unfoldable pub pit_handler : Kernel → Kernel
pit_handler k = sti (schedule (send_eoi 0 (cli k)))
