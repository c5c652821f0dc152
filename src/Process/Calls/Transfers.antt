-- ===== src/Process/Calls/Transfers.antt =====
-- `syscall_open`, `syscall_read` and `syscall_write` of syscall.c, from what they do to the table of
-- the active process.
use light_os_a_linus_like_os.Common.{ap, ◌≡◌, ℤ, Option}
use light_os_a_linus_like_os.Memory.{Bytes}
use light_os_a_linus_like_os.Kernel.{Pcb, Kernel, set_pcb}
use light_os_a_linus_like_os.Descriptors.{
  file_descriptor_table_open, file_descriptor_table_read, file_descriptor_table_write,
}
use light_os_a_linus_like_os.Devices.{World, set_kernel, devices}
use light_os_a_linus_like_os.Process.Calls.{store_table, syscall_open, syscall_read, syscall_write}

pub syscall_read-table :
    (boot : Option Bytes) (fd n result : ℤ) (buf buf' : Option Bytes) (w w' : World) (p' : Pcb)
    → file_descriptor_table_read (devices boot) fd buf n (w.kernel.pcbs w.kernel.active_pid) w
      ≡ (w', p', result, buf')
    → syscall_read boot fd buf n w
      ≡ (set_kernel (set_pcb w.kernel.active_pid p' w'.kernel) w', result, buf')
unfolding syscall_read
syscall_read-table boot fd n result buf buf' w w' p' e =
    ap (λ r. store_table r w.kernel.active_pid) e

pub syscall_write-table :
    (boot : Option Bytes) (fd n result : ℤ) (buf buf' : Option Bytes) (w w' : World) (p' : Pcb)
    → file_descriptor_table_write (devices boot) fd buf n (w.kernel.pcbs w.kernel.active_pid) w
      ≡ (w', p', result, buf')
    → syscall_write boot fd buf n w
      ≡ (set_kernel (set_pcb w.kernel.active_pid p' w'.kernel) w', result, buf')
unfolding syscall_write
syscall_write-table boot fd n result buf buf' w w' p' e =
    ap (λ r. store_table r w.kernel.active_pid) e

pub syscall_open-table :
    (boot name : Option Bytes) (k : Kernel) (result : ℤ)
    → let (found, p) = file_descriptor_table_open boot name (k.pcbs k.active_pid) in
      found ≡ result → syscall_open boot name k ≡ (result, set_pcb k.active_pid p k)
unfolding syscall_open
syscall_open-table boot name k result e =
    ap
      (λ n.
        (n, set_pcb k.active_pid (file_descriptor_table_open boot name (k.pcbs k.active_pid)).1 k))
      e
