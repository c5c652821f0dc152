-- ===== src/Kernel.antt =====
-- The kernel's state: the structures of syscall.h, general_file.h and paging.h, the global
-- variables of the .c files, physical memory and what the processor holds.
-- A C `int` that never goes below 0 is a natural number.
use mathlib.Core.Bool.{false≢true}
use light_os_a_linus_like_os.Common.{
  ℕ, ◌≡◌, refl, ◌+◌, ◌*◌, ◌/◌, ◌%◌, ℤ, Option, Bool, true, false, List, ◌∷◌, ◌==◌, if◌then◌else◌,
}
use light_os_a_linus_like_os.Memory.{Bytes}

-- `&terminal_1`, `&terminal_2`, `&terminal_3`: the only values that the terminal pointers get.
pub data TerminalId : Type 0 where
  terminal_1 terminal_2 terminal_3 : TerminalId

-- Equality of the pointers.
abbrev pub same : TerminalId → TerminalId → Bool
same terminal_1 terminal_1 = true
same terminal_2 terminal_2 = true
same terminal_3 terminal_3 = true
same _ _ = false

pub same_self : (id : TerminalId) → same id id ≡ true
same_self terminal_1 = refl
same_self terminal_2 = refl
same_self terminal_3 = refl

pub same→eq : (a b : TerminalId) → same a b ≡ true → a ≡ b
same→eq terminal_1 terminal_1 h = refl
same→eq terminal_2 terminal_2 h = refl
same→eq terminal_3 terminal_3 h = refl
same→eq terminal_1 terminal_2 h = absurd (false≢true h)
same→eq terminal_1 terminal_3 h = absurd (false≢true h)
same→eq terminal_2 terminal_1 h = absurd (false≢true h)
same→eq terminal_2 terminal_3 h = absurd (false≢true h)
same→eq terminal_3 terminal_1 h = absurd (false≢true h)
same→eq terminal_3 terminal_2 h = absurd (false≢true h)

abbrev pub number : TerminalId → ℕ
number terminal_1 = 1
number terminal_2 = 2
number terminal_3 = 3

-- An array with one entry replaced.
abbrev pub put {ℓ} : {A : Type ℓ} → (ℕ → A) → ℕ → A → ℕ → A
put f i a j = if i == j then a else f j

-- `terminal_t`
pub record Terminal : Type 0 where
  pub terminal_id : ℕ
  pub screen_x : ℕ
  pub screen_y : ℕ
  pub key_buf : List ℕ  -- 128 bytes
  pub keyboard_buffer_size : ℕ
  pub keyboard_buffer_enable : ℕ
  pub overflow : ℕ
  pub video_address : ℕ
  pub current_process_id : ℕ
  pub virtual_rate : ℕ
  pub virtual_count : ℕ

-- The tables of operations that a descriptor's `file_ops_t` points to.
pub data FileOps : Type 0 where
  terminal_file_ops_stdin terminal_file_ops_stdout ece391_file_ops ece391_dir_ops ece391_rtc_ops :
      FileOps

-- `file_descriptor_t`
pub record FileDescriptor : Type 0 where
  pub file_ops : Option FileOps
  pub inode : ℤ
  pub file_pos : ℕ
  pub flags : ℕ

-- `pcb_t`
pub record Pcb : Type 0 where
  pub file_descriptor_array : List FileDescriptor  -- 8 entries
  pub current_pid : ℕ
  pub parent_pid : ℕ
  pub current_esp : ℕ
  pub current_ebp : ℕ
  pub current_eip : ℕ
  pub arg_buf : Bytes
  pub vidmap_flag : ℕ
  pub terminal : TerminalId

-- `pde` and `pte`
pub record Pde : Type 0 where
  pub present : ℕ
  pub write_read : ℕ
  pub u_s : ℕ
  pub write_through : ℕ
  pub cache_disable : ℕ
  pub access : ℕ
  pub dirty : ℕ
  pub page_size : ℕ
  pub glob : ℕ
  pub avail : ℕ
  pub address : ℕ

pub record Pte : Type 0 where
  pub present : ℕ
  pub write_read : ℕ
  pub u_s : ℕ
  pub write_through : ℕ
  pub cache_disable : ℕ
  pub access : ℕ
  pub dirty : ℕ
  pub pat : ℕ
  pub glob : ℕ
  pub avail : ℕ
  pub address : ℕ

-- The registers that a context switch loads or stores.
pub record Cpu : Type 0 where
  pub eax : ℕ
  pub esp : ℕ
  pub ebp : ℕ
  pub eip : ℕ
  pub interrupts : Bool  -- the interrupt flag, which `cli` clears and `sti` sets

pub record Kernel : Type 0 where
  pub terminals : TerminalId → Terminal
  pub active_terminal : TerminalId
  pub current_terminal : TerminalId
  -- keyboard.c
  pub alt_pressed : ℕ
  pub ctrl_pressed : ℕ
  pub shift_pressed : ℕ
  pub caps_lock : ℕ
  -- paging.c
  pub page_dir : ℕ → Pde
  pub pg_tab_1 : ℕ → Pte
  pub vidmap_pg_tab_1 : ℕ → Pte
  -- syscall.c; the pcb of process `pid` stands `pid * 8` KB below the 8 MB line
  pub active_pid : ℕ
  pub process_count : ℕ
  pub processes : List ℕ
  pub pcbs : ℕ → Pcb
  pub arg_buf : Bytes
  pub argument_exist : ℕ
  pub esp0 : ℕ  -- `tss.esp0`
  -- rtc.c
  pub rtc_read_flag : ℕ
  pub physical_rate : ℕ
  -- the machine: physical memory, the bytes sent by `outb` with their ports, latest first
  pub memory : Bytes
  pub outputs : List (ℕ × ℕ)
  pub cpu : Cpu

abbrev pub set_terminal : TerminalId → Terminal → Kernel → Kernel
set_terminal id t k = record k {
  terminals = λ other. if same id other then t else k.terminals other;
}

abbrev pub set_pcb : ℕ → Pcb → Kernel → Kernel
set_pcb pid p k = record k { pcbs = put k.pcbs pid p }

-- `outb(value, port)`: the low byte of the value goes out.
abbrev pub outb : ℕ → ℕ → Kernel → Kernel
outb value port k = record k { outputs = (value % 256, port) ∷ k.outputs }

abbrev pub set_interrupts : Bool → Kernel → Kernel
set_interrupts b k = let c = k.cpu in record k { cpu = record c { interrupts = b } }

abbrev pub cli : Kernel → Kernel
cli = set_interrupts false

abbrev pub sti : Kernel → Kernel
sti = set_interrupts true

-- The physical address behind a virtual one in the first 4 MB, which `pg_tab_1` maps.
abbrev pub physical : Kernel → ℕ → ℕ
physical k address = (k.pg_tab_1 (address / 4096)).address * 4096 + address % 4096
