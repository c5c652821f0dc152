-- ===== src/Process/Halt.antt =====
-- `syscall_halt` of syscall.c.
pub mod Parent
pub mod Trip
use light_os_a_linus_like_os.Common.{ℕ, zero, suc, ◌-◌, pos, List, ◌==◌, if◌then◌else◌}
use light_os_a_linus_like_os.Kernel.{Pcb, Kernel, set_terminal, set_pcb}
use light_os_a_linus_like_os.Console.{put_all}
use light_os_a_linus_like_os.Descriptors.{file_descriptor_table_close}
use light_os_a_linus_like_os.Paging.{paging_execute, paging_video_memory}
use light_os_a_linus_like_os.Process.Pool.{release_process}
use light_os_a_linus_like_os.Process.Switching.{
  set_esp0, context_switch_halt, boot_enter_terminal_1, boot_enter_terminal_2,
  boot_enter_terminal_3,
}
use light_os_a_linus_like_os.Text.{codes}

-- The loop that closes the descriptors from `i` on.
close_from : ℕ → ℕ → Pcb → Pcb
close_from zero i p = p
close_from (suc rounds) i p = close_from rounds (suc i) (file_descriptor_table_close (pos i) p).1

-- The rest of the call, for a process that is not one of the three shells.
halt_process : ℕ → Kernel → Kernel
unfolding close_from
halt_process status k =
    let pid = k.active_pid in
    let k1 = (release_process (pos pid) (record k { process_count = k.process_count - 1 })).1 in
    let k2 = set_pcb pid (close_from 8 0 (k1.pcbs pid)) k1 in
    let parent = (k2.pcbs pid).parent_pid in
    let i = (k2.pcbs parent).terminal in
    let t = k2.terminals i in
    let k3 =
      set_terminal i (record t { current_process_id = parent })
        (record k2 { active_pid = parent; active_terminal = i }) in
    context_switch_halt status (paging_video_memory (paging_execute parent (set_esp0 parent k3)))

unfoldable pub syscall_halt : ℕ → Kernel → Kernel
unfolding halt_process
syscall_halt status k =
    if k.active_pid == 1
    then boot_enter_terminal_1 (put_all (codes " root shell of terminal 1 could be be halted\n") k)
    else if k.active_pid == 2
    then boot_enter_terminal_2 (put_all (codes " root shell of terminal 2 could be be halted\n") k)
    else if k.active_pid == 3
    then boot_enter_terminal_3 (put_all (codes " root shell of terminal 3 could be be halted\n") k)
    else halt_process status k
