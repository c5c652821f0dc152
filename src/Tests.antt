-- ===== src/Tests.antt =====
-- Small concrete states of the code in student-distrib, at which the theorems are applied.
mod Files
mod Descriptors
mod Screens
mod Machine
mod Strings
mod Programs
mod Starts
mod Listing
mod Session
use light_os_a_linus_like_os.Common.{
  ◌≡◌, refl, ℕ, ◌+◌, ◌*◌, failure, none, true, [], ◌∷◌, get_or, replicate, ◌==◌, if◌then◌else◌,
}
use light_os_a_linus_like_os.Memory.{Bytes, update}
use light_os_a_linus_like_os.Kernel.{
  TerminalId, terminal_1, terminal_2, terminal_3, number, Terminal, Pcb, FileDescriptor, Cpu,
  Kernel,
}
use light_os_a_linus_like_os.Paging.Maps.{HasFrames}
use light_os_a_linus_like_os.Paging.{Layout, empty_pde, empty_pte, kernel_pte}

abbrev zeros : Bytes
zeros i = 0

-- A file system of two inodes: entry 1 is the file `ls`, whose inode 1 has four bytes, those that
-- an executable file starts with.
abbrev image : Bytes
image =
    update
      (update
        (update
          (update
            (update
              (update (update (update (update (update zeros 4 2) 128 b'l') 129 b's') 160 2) 164 1)
              8192 4)
            12288 0x7f)
          12289 0x45)
        12290 0x4c)
      12291 0x46

abbrev name : Bytes
name i = get_or (b'l' ∷ b's' ∷ 0 ∷ []) i 0

abbrev layout : Layout
layout = record { pg_tab_1_address = 0x403000; vidmap_pg_tab_1_address = 0x405000 }

abbrev terminal : TerminalId → Terminal
terminal id = record {
  terminal_id = number id;
  screen_x = 0;
  screen_y = 0;
  key_buf = replicate 128 0;
  keyboard_buffer_size = 0;
  keyboard_buffer_enable = 1;
  overflow = 0;
  video_address = 0xB8000 + 4096 * number id;
  current_process_id = number id;
  virtual_rate = 2;
  virtual_count = 0;
}

abbrev unused : FileDescriptor
unused = record { file_ops = none; inode = failure; file_pos = 0; flags = 0 }

abbrev used : FileDescriptor
used = record unused { flags = 1 }

-- A process whose first two descriptors are in use.
abbrev process : ℕ → Pcb
process parent = record {
  file_descriptor_array = used ∷ used ∷ replicate 6 unused;
  current_pid = 1;
  parent_pid = parent;
  current_esp = 5000;
  current_ebp = 6000;
  current_eip = 0;
  arg_buf = zeros;
  vidmap_flag = 0;
  terminal = terminal_1;
}

abbrev cpu : Cpu
cpu = record { eax = 0; esp = 100; ebp = 200; eip = 300; interrupts = true }

-- Terminal 1 is shown and scheduled, and runs process 4, a child of process 1.
abbrev kernel : Kernel
kernel = record {
  terminals = terminal;
  active_terminal = terminal_1;
  current_terminal = terminal_1;
  alt_pressed = 0;
  ctrl_pressed = 0;
  shift_pressed = 0;
  caps_lock = 0;
  page_dir = λ i. empty_pde;
  pg_tab_1 = λ i. kernel_pte (if i == 0xB7 then 0xB8 else i);
  vidmap_pg_tab_1 = λ i. empty_pte;
  active_pid = 4;
  process_count = 4;
  processes = 1 ∷ 1 ∷ 1 ∷ 1 ∷ 1 ∷ 0 ∷ 0 ∷ [];
  pcbs = λ pid. process 1;
  arg_buf = zeros;
  argument_exist = 0;
  esp0 = 0;
  rtc_read_flag = 0;
  physical_rate = 1024;
  memory = zeros;
  outputs = [];
  cpu = cpu;
}

kernel-HasFrames : HasFrames kernel
kernel-HasFrames = record {
  direct = refl;
  backing = numbers;
  numbered = λ i. refl;
  addressed = λ i. refl;
}
  where
    numbers : (i : TerminalId) → (kernel.pg_tab_1 (0xB8 + number i)).address ≡ 0xB8 + number i
    numbers terminal_1 = refl
    numbers terminal_2 = refl
    numbers terminal_3 = refl
