-- ===== src/Process/Calls.antt =====
-- The other system calls of syscall.c. A call on a descriptor works on the table of the active
-- process.
pub mod Video
pub mod Arguments
pub mod Transfers
use light_os_a_linus_like_os.Common.{
  ℕ, suc, ◌+◌, ◌/◌, ℤ, pos, negsuc, failure, to_int32, Option, none, some, ltb, ◌||◌, ◌==◌,
  if◌then◌else◌,
}
use light_os_a_linus_like_os.Memory.{Bytes, memcpy}
use light_os_a_linus_like_os.CString.{strlen}
use light_os_a_linus_like_os.Kernel.{Pcb, Kernel, set_pcb}
use light_os_a_linus_like_os.Descriptors.{
  file_descriptor_table_open, file_descriptor_table_close, file_descriptor_table_read,
  file_descriptor_table_write,
}
use light_os_a_linus_like_os.Devices.{World, set_kernel, devices}
use light_os_a_linus_like_os.Paging.{
  Layout, syscall_enable_vidmap_paging, virtual_128mb_start, kernel_stack_base_address,
}

abbrev store : ℤ × Pcb → Kernel → ℤ × Kernel
store (result, p) k = (result, set_pcb k.active_pid p k)

unfoldable pub syscall_open : Option Bytes → Option Bytes → Kernel → ℤ × Kernel
syscall_open boot filename k =
    store (file_descriptor_table_open boot filename (k.pcbs k.active_pid)) k

unfoldable pub syscall_close : ℤ → Kernel → ℤ × Kernel
syscall_close fd k = store (file_descriptor_table_close fd (k.pcbs k.active_pid)) k

-- The drivers change the kernel, and the call the caller's control block.
abbrev store_table : World × Pcb × ℤ × Option Bytes → ℕ → World × ℤ × Option Bytes
store_table (w, p, result, buf) pid = (set_kernel (set_pcb pid p w.kernel) w, result, buf)

unfoldable pub syscall_read : Option Bytes → ℤ → Option Bytes → ℤ → World → World × ℤ × Option Bytes
syscall_read boot fd buf nbytes w =
    let k = w.kernel in
    store_table (file_descriptor_table_read (devices boot) fd buf nbytes (k.pcbs k.active_pid) w)
      k.active_pid

unfoldable pub syscall_write :
    Option Bytes → ℤ → Option Bytes → ℤ → World → World × ℤ × Option Bytes
syscall_write boot fd buf nbytes w =
    let k = w.kernel in
    store_table (file_descriptor_table_write (devices boot) fd buf nbytes (k.pcbs k.active_pid) w)
      k.active_pid

-- `length > nbytes`
abbrev exceeds : ℕ → ℤ → ℕ
exceeds n (pos m) = if ltb m n then 1 else 0
exceeds n (negsuc m) = 1

-- The result and the caller's buffer, which gets the argument and its NUL.
unfoldable pub syscall_getargs : Option Bytes → ℤ → Kernel → ℤ × Option Bytes
syscall_getargs none nbytes k = (failure, none)
syscall_getargs (some buf) nbytes k =
    let arg = (k.pcbs k.active_pid).arg_buf in
    if k.argument_exist == 0
    then (failure, some buf)
    else if exceeds (strlen arg) nbytes == 1
    then (failure, some buf)
    else (pos 0, some (memcpy (suc (strlen arg)) 0 0 arg buf))

abbrev pub vidmap_address : ℕ
vidmap_address = virtual_128mb_start + kernel_stack_base_address / 2

-- The result and what `*screen_start` is set to, if it is.
unfoldable pub syscall_vidmap : Layout → ℕ → Kernel → ℤ × Option ℕ × Kernel
syscall_vidmap layout screen_start k =
    let p = k.pcbs k.active_pid in
    if screen_start == 0 || ltb screen_start virtual_128mb_start || ltb vidmap_address screen_start
    then (failure, none, k)
    else (
      to_int32 vidmap_address,
      some vidmap_address,
      syscall_enable_vidmap_paging layout (set_pcb k.active_pid (record p { vidmap_flag = 1 }) k),
    )

pub syscall_set_handler : ℤ
syscall_set_handler = failure

pub syscall_sigreturn : ℤ
syscall_sigreturn = failure
