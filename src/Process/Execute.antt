-- ===== src/Process/Execute.antt =====
-- `syscall_execute` of syscall.c.
pub mod Magic
pub mod Checks
pub mod Loads
pub mod Starts
use light_os_a_linus_like_os.Common.{
  ℕ, ◌+◌, ◌-◌, ◌*◌, ◌%◌, ◌^◌, ℤ, failure, is_failure, Option, none, some, Bool, false, not, ◌&&◌,
  ◌||◌, List, [], ◌∷◌, length, get_or, ltb, leb, ◌==◌, if◌then◌else◌,
}
use light_os_a_linus_like_os.Text.{codes, bytes_of}
use light_os_a_linus_like_os.Memory.{Bytes, offset_by, memcpy}
use light_os_a_linus_like_os.CString.{strlen}
use light_os_a_linus_like_os.Kernel.{Pcb, Kernel, set_terminal, set_pcb}
use light_os_a_linus_like_os.Console.{put_all}
use light_os_a_linus_like_os.FileSystem.{DirEntry, read_dentry_by_name, read_data, type_file}
use light_os_a_linus_like_os.FileSystem.Ops.{file_open}
use light_os_a_linus_like_os.Descriptors.{file_descriptor_table_init}
use light_os_a_linus_like_os.Paging.{
  paging_execute, paging_video_memory, virtual_address_program_start, kernel_stack_base_address,
}
use light_os_a_linus_like_os.Process.Pool.{get_process_available}
use light_os_a_linus_like_os.Process.Switching.{
  user_page, entry_point, user_stack_base_address, user_kernel_stack_size, context_switch_execute,
}
use light_os_a_linus_like_os.Process.Command.{word_from}

abbrev pub max_arg_length : ℕ
max_arg_length = 33

abbrev pub max_num_processes : ℕ
max_num_processes = 6

abbrev pub max_file_size : ℕ
max_file_size = 63 * 4096

-- The call fails with -1; the new program runs, and the call returns when it halts; or a loop
-- wrote behind `fn` or `arg_buf`.
pub data Execution : Type 0 where
  refused : Kernel → Execution
  started : ℕ → Kernel → Execution
  overrun : Execution

-- The four bytes that an executable file starts with.
abbrev pub is_executable : Bytes → Bool
is_executable buf = buf 0 == 0x7f && buf 1 == 0x45 && buf 2 == 0x4c && buf 3 == 0x46

-- Memory with the bytes from `base` on taken from a buffer.
abbrev pub put_back : ℕ → Option Bytes → Bytes → Bytes
put_back base none m a = m a
put_back base (some out) m a = if leb base a then out (a - base) else m a

-- `read_data` into the user's program page.
unfoldable pub load_program : Option Bytes → ℤ → Kernel → Kernel
load_program boot inode k =
    let base = user_page k + virtual_address_program_start % 2 ^ 22 in
    let (count, buf) = read_data boot inode 0 (some (offset_by base k.memory)) max_file_size in
    record k { memory = put_back base buf k.memory }

-- The control block of a new process.
abbrev pub new_pcb : ℕ → Kernel → Pcb
new_pcb pid k =
    let p = file_descriptor_table_init (k.pcbs pid) in
    record p {
      current_pid = pid;
      parent_pid = k.active_pid;
      current_esp = user_stack_base_address;
      current_ebp = user_stack_base_address;
      current_eip = entry_point k;
      vidmap_flag = 0;
      terminal = k.active_terminal;
      arg_buf = memcpy max_arg_length 0 0 k.arg_buf p.arg_buf;
    }

-- The last part: process `pid` is set up, and its program entered.
unfoldable pub start_process : Option Bytes → ℤ → ℕ → Kernel → Kernel
start_process boot inode pid k =
    let t = k.terminals k.active_terminal in
    let k1 = set_pcb pid (new_pcb pid k) k in
    let k2 = set_terminal k.active_terminal (record t { current_process_id = pid }) k1 in
    let k3 = load_program boot inode (paging_video_memory (paging_execute pid k2)) in
    let p = k3.pcbs k3.active_pid in
    let k4 =
      set_pcb k3.active_pid (record p { current_esp = k3.cpu.esp; current_ebp = k3.cpu.ebp }) k3 in
    context_switch_execute (record k4 {
      active_pid = pid;
      esp0 = kernel_stack_base_address - pid * user_kernel_stack_size;
    })

allocate : Option Bytes → ℤ → Option ℕ × Kernel → Execution
allocate boot inode (none, k) = refused (put_all (codes "Max number of processes reached\n") k)
allocate boot inode (some pid, k) = started pid (start_process boot inode pid k)

-- The middle part: is it a file, and is the file a program? `stack` is what the uninitialised
-- local array `buf` holds.
check_magic : Option Bytes → ℤ → ℤ × Option Bytes → Kernel → Execution
check_magic boot inode (count, none) k = refused k
check_magic boot inode (count, some buf) k =
    if is_failure count || not (is_executable buf)
    then refused k
    else allocate boot inode
        (get_process_available (record k { process_count = k.process_count + 1 }))

check_open : Option Bytes → Bytes → ℤ × ℤ → Kernel → Execution
check_open boot stack (result, inode) k =
    if is_failure result
    then refused k
    else check_magic boot inode (read_data boot inode 0 (some stack) 4) k

check_entry : Option Bytes → Bytes → Option Bytes → Option DirEntry → Kernel → Execution
check_entry boot stack fn none k = refused k
check_entry boot stack fn (some entry) k =
    if entry.filetype == type_file
    then check_open boot stack (file_open boot failure fn) k
    else refused k

-- What the two loops leave in the kernel.
abbrev pub keep_argument : List ℕ → Kernel → Kernel
keep_argument arg k = record k {
  arg_buf = bytes_of arg;
  argument_exist = if ltb 1 (length arg) then 1 else 0;
}

unfoldable pub syscall_execute : Option Bytes → Bytes → Bytes → Kernel → Execution
unfolding allocate check_magic check_open check_entry
syscall_execute boot stack command k =
    let len = strlen command + 1 in
    let (i, fn) = word_from len command 0 false [] in
    let (i', arg) = word_from (len - i) command i false [] in
    let k' = keep_argument arg k in
    let name = some (bytes_of fn) in
    if k.process_count == max_num_processes
    then refused (put_all (codes "Max number of processes reached\n") k)
    else if ltb (max_arg_length + 4) len
    then refused (put_all (codes "Command is too long\n") (record k { argument_exist = 0 }))
    else if ltb 33 (length fn) || ltb max_arg_length (length arg)
    then overrun
    else check_entry boot stack name (read_dentry_by_name boot name) k'
