-- ===== src/Programs.antt =====
-- Programs of syscalls/ that run on the kernel: what their `main` does, over the system calls.
pub mod Steps
pub mod Cat
pub mod Ls
pub mod Shell
use Prim.Native.String.{String}
use light_os_a_linus_like_os.Common.{ℤ, pos, Option, none, some}
use light_os_a_linus_like_os.Memory.{Bytes}
use light_os_a_linus_like_os.CString.{strlen}
use light_os_a_linus_like_os.Text.{codes, bytes_of}
use light_os_a_linus_like_os.Devices.{World}
use light_os_a_linus_like_os.Process.Calls.{syscall_write}

-- `ece391_fdputs` of syscalls/ece391support.c. Its `ece391_strlen` counts as the kernel's `strlen`
-- does.
unfoldable pub ece391_fdputs : Option Bytes → ℤ → Bytes → World → World
ece391_fdputs boot fd s w = (syscall_write boot fd (some s) (pos (strlen s)) w).0

abbrev pub put_line : Option Bytes → String → World → World
put_line boot text = ece391_fdputs boot (pos 1) (bytes_of (codes text))

-- The buffer after a call that got a pointer to it.
abbrev pub filled : Bytes → Option Bytes → Bytes
filled old none = old
filled old (some new) = new
