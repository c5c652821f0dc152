-- ===== src/Process/Boot.antt =====
-- The set-up of the three shells in syscall.c, before the first timer interrupt.
pub mod Keeps
use light_os_a_linus_like_os.Common.{
  ℤ, failure, is_failure, Option, none, some, not, ◌||◌, if◌then◌else◌,
}
use light_os_a_linus_like_os.Memory.{Bytes, memset}
use light_os_a_linus_like_os.Kernel.{
  TerminalId, terminal_1, terminal_2, terminal_3, number, Pcb, Kernel, set_terminal, set_pcb,
}
use light_os_a_linus_like_os.FileSystem.{read_data}
use light_os_a_linus_like_os.FileSystem.Ops.{file_open}
use light_os_a_linus_like_os.Descriptors.{file_descriptor_table_init}
use light_os_a_linus_like_os.Paging.{paging_execute}
use light_os_a_linus_like_os.Process.Switching.{entry_point, user_stack_base_address}
use light_os_a_linus_like_os.Text.{codes, bytes_of}
use light_os_a_linus_like_os.Process.Execute.{is_executable, load_program, max_arg_length}

abbrev shell_pcb : TerminalId → Kernel → Pcb
shell_pcb i k =
    let p = file_descriptor_table_init (k.pcbs (number i)) in
    record p {
      current_pid = number i;
      parent_pid = 0;
      current_esp = user_stack_base_address;
      current_ebp = user_stack_base_address;
      current_eip = entry_point k;
      vidmap_flag = 0;
      terminal = i;
      arg_buf = memset max_arg_length 0 0 p.arg_buf;
    }

-- What the three functions do for their terminal, once the shell is known to be a program.
abbrev set_up_shell : TerminalId → Option Bytes → ℤ → Kernel → Kernel
set_up_shell i boot inode k =
    let k1 = load_program boot inode (paging_execute (number i) k) in
    let k2 = set_pcb (number i) (shell_pcb i k1) k1 in
    let t = k2.terminals i in set_terminal i (record t { current_process_id = 0 }) k2

abbrev check_shell : TerminalId → Option Bytes → ℤ → ℤ × Option Bytes → Kernel → Kernel
check_shell i boot inode (count, none) k = k
check_shell i boot inode (count, some buf) k =
    if is_failure count || not (is_executable buf) then k else set_up_shell i boot inode k

abbrev open_shell : TerminalId → Option Bytes → Bytes → ℤ × ℤ → Kernel → Kernel
open_shell i boot stack (result, inode) k =
    if is_failure result
    then k
    else check_shell i boot inode (read_data boot inode 0 (some stack) 4) k

abbrev create_shell : TerminalId → Option Bytes → Bytes → Kernel → Kernel
create_shell i boot stack k =
    open_shell i boot stack (file_open boot failure (some (bytes_of (codes "shell")))) k

-- `stack` is what the uninitialised local array `buf` holds.
unfoldable pub create_terminal_1_shell : Option Bytes → Bytes → Kernel → Kernel
create_terminal_1_shell = create_shell terminal_1

unfoldable pub create_terminal_2_shell : Option Bytes → Bytes → Kernel → Kernel
create_terminal_2_shell = create_shell terminal_2

unfoldable pub create_terminal_3_shell : Option Bytes → Bytes → Kernel → Kernel
create_terminal_3_shell = create_shell terminal_3
