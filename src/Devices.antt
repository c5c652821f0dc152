-- ===== src/Devices.antt =====
-- The functions behind the tables of operations of student-distrib/terminal.c and filesystem.c,
-- filled in: what a read or a write of a descriptor reaches.
use light_os_a_linus_like_os.Common.{
  ℕ, ◌-◌, ◌/◌, ℤ, pos, failure, Option, none, some, Bool, false, List, [],
}
use light_os_a_linus_like_os.Memory.{Bytes}
use light_os_a_linus_like_os.Kernel.{
  FileOps, terminal_file_ops_stdin, terminal_file_ops_stdout, ece391_file_ops, ece391_dir_ops,
  ece391_rtc_ops, Kernel,
}
use light_os_a_linus_like_os.Descriptors.{Drivers, Result}
use light_os_a_linus_like_os.FileSystem.Ops.{file_read, file_write, dir_read, dir_write, Transfer}
use light_os_a_linus_like_os.TerminalDriver.{
  Read, returned, blocked, failed, terminal_read, terminal_write,
}
use light_os_a_linus_like_os.Rtc.{rtc_read, rtc_write}

-- The kernel and what happens outside while a call waits: the scan codes and the interrupts of the
-- clock that are still to come. `is_running` is false once a call waits for ever, or has written
-- out of bounds; what it returns then means nothing.
pub record World : Type 0 where
  pub kernel : Kernel
  pub inputs : List ℕ
  pub ticks : ℕ
  pub is_running : Bool

abbrev pub set_kernel : Kernel → World → World
set_kernel k w = record w { kernel = k }

abbrev after_terminal : ℕ → Option Bytes → World → Read → Result World
after_terminal offset buf w (returned k inputs count buf') =
    (record w { kernel = k; inputs = inputs }, count, buf', offset)
after_terminal offset buf w (blocked k) =
    (record w { kernel = k; inputs = []; is_running = false }, failure, buf, offset)
after_terminal offset buf w failed = (record w { is_running = false }, failure, buf, offset)

-- The reader has used up a period of its terminal's clock.
abbrev after_clock : ℕ → Option Bytes → World → Option Kernel → Result World
after_clock offset buf w none = (record w { ticks = 0; is_running = false }, failure, buf, offset)
after_clock offset buf w (some k) =
    let t = w.kernel.terminals w.kernel.active_terminal in
    (
      record w { kernel = k; ticks = w.ticks - w.kernel.physical_rate / t.virtual_rate },
      pos 0,
      buf,
      offset,
    )

abbrev pub unchanged : World → Transfer → Result World
unchanged w (result, buf, offset) = (w, result, buf, offset)

abbrev after_write : ℕ → Option Bytes → World → ℤ × Kernel → Result World
after_write offset buf w (result, k) = (set_kernel k w, result, buf, offset)

-- `boot` is `boot_block_pointer`. The NULL entries of the tables are never called.
abbrev device_read : Option Bytes → FileOps → ℤ → Option Bytes → ℕ → ℕ → World → Result World
device_read boot terminal_file_ops_stdin inode buf len offset w =
    after_terminal offset buf w (terminal_read buf len w.inputs w.kernel)
device_read boot terminal_file_ops_stdout inode buf len offset w = (w, failure, buf, offset)
device_read boot ece391_file_ops inode buf len offset w =
    unchanged w (file_read boot inode buf len offset)
device_read boot ece391_dir_ops inode buf len offset w =
    unchanged w (dir_read boot inode buf len offset)
device_read boot ece391_rtc_ops inode buf len offset w =
    after_clock offset buf w (rtc_read w.ticks w.kernel)

abbrev device_write : FileOps → ℤ → Option Bytes → ℕ → ℕ → World → Result World
device_write terminal_file_ops_stdin inode buf len offset w = (w, failure, buf, offset)
device_write terminal_file_ops_stdout inode buf len offset w =
    after_write offset buf w (terminal_write buf len w.kernel)
device_write ece391_file_ops inode buf len offset w = (w, file_write, buf, offset)
device_write ece391_dir_ops inode buf len offset w = (w, dir_write, buf, offset)
device_write ece391_rtc_ops inode buf len offset w =
    after_write offset buf w (rtc_write buf w.kernel)

abbrev pub devices : Option Bytes → Drivers World
devices boot = record { read = device_read boot; write = device_write }
