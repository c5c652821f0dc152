-- ===== src/Paging.antt =====
-- student-distrib/paging.c, and the functions of syscall.c that change the page tables. `layout`
-- holds the addresses that the linker gives to the tables.
pub mod Maps
use light_os_a_linus_like_os.Common.{
  ℕ, zero, suc, ◌+◌, ◌-◌, ◌*◌, ◌/◌, ◌%◌, ◌^◌, ◌==◌, if◌then◌else◌,
}
use light_os_a_linus_like_os.Kernel.{Pde, Pte, Kernel, same, put}

-- Where `pg_tab_1` and `vidmap_pg_tab_1` stand in memory.
pub record Layout : Type 0 where
  pub pg_tab_1_address : ℕ
  pub vidmap_pg_tab_1_address : ℕ

abbrev pub size : ℕ
size = 1024

abbrev pub video_address_to_physical : ℕ
video_address_to_physical = 0x000B7000

abbrev pub video_mem : ℕ
video_mem = 0x000B8000

abbrev pub video_mem_terminal_1 : ℕ
video_mem_terminal_1 = 0x000B9000

abbrev pub video_mem_terminal_2 : ℕ
video_mem_terminal_2 = 0x000BA000

abbrev pub video_mem_terminal_3 : ℕ
video_mem_terminal_3 = 0x000BB000

-- `>> 12`
abbrev pub frame : ℕ → ℕ
frame address = address / 2 ^ 12

abbrev pub empty_pde : Pde
empty_pde = record {
  present = 0;
  write_read = 0;
  u_s = 0;
  write_through = 0;
  cache_disable = 0;
  access = 0;
  dirty = 0;
  page_size = 0;
  glob = 0;
  avail = 0;
  address = 0;
}

abbrev pub empty_pte : Pte
empty_pte = record {
  present = 0;
  write_read = 0;
  u_s = 0;
  write_through = 0;
  cache_disable = 0;
  access = 0;
  dirty = 0;
  pat = 0;
  glob = 0;
  avail = 0;
  address = 0;
}

-- A present, writable page of the kernel at a frame.
abbrev pub kernel_pte : ℕ → Pte
kernel_pte f = record {
  present = 1;
  write_read = 1;
  u_s = 0;
  write_through = 0;
  cache_disable = 0;
  access = 0;
  dirty = 0;
  pat = 0;
  glob = 0;
  avail = 0;
  address = f;
}

-- The loop that marks the directory's entries from `i` on as not present.
clear_directory : ℕ → ℕ → (ℕ → Pde) → ℕ → Pde
clear_directory zero i dir = dir
clear_directory (suc rounds) i dir = clear_directory rounds (suc i) (put dir i empty_pde)

-- The loop that clears a page table's entries from `i` on.
clear_table : ℕ → ℕ → (ℕ → Pte) → ℕ → Pte
clear_table zero i tab = tab
clear_table (suc rounds) i tab = clear_table rounds (suc i) (put tab i empty_pte)

-- The entries 0 (the page table of the first 4 MB) and 1 (the kernel's 4 MB page).
first_pde : Layout → Pde
first_pde layout = record empty_pde {
  present = 1;
  write_read = 1;
  address = frame layout.pg_tab_1_address;
}

kernel_pde : Pde
kernel_pde = record empty_pde {
  present = 1;
  write_read = 1;
  cache_disable = 1;
  page_size = 1;
  glob = 1;
  address = 0x00400;
}

-- The five video pages of `pg_tab_1`.
video_pages : (ℕ → Pte) → ℕ → Pte
video_pages tab =
    let t1 = put tab (frame video_address_to_physical) (kernel_pte (frame video_mem)) in
    let t2 = put t1 (frame video_mem) (kernel_pte (frame video_mem)) in
    let t3 = put t2 (frame video_mem_terminal_1) (kernel_pte (frame video_mem_terminal_1)) in
    let t4 = put t3 (frame video_mem_terminal_2) (kernel_pte (frame video_mem_terminal_2)) in
    put t4 (frame video_mem_terminal_3) (kernel_pte (frame video_mem_terminal_3))

-- `paging_enable`, which loads the control registers, is assembly and changes no table.
pub page_initialize : Layout → Kernel → Kernel
unfolding clear_directory clear_table first_pde kernel_pde video_pages
page_initialize layout k = record k {
  page_dir = clear_directory (size - 2) 2 (put (put k.page_dir 0 (first_pde layout)) 1 kernel_pde);
  pg_tab_1 = video_pages (clear_table size 0 k.pg_tab_1);
  vidmap_pg_tab_1 = clear_table size 0 k.vidmap_pg_tab_1;
}

abbrev pub virtual_address_program_start : ℕ
virtual_address_program_start = 0x08048000

abbrev pub kernel_stack_base_address : ℕ
kernel_stack_base_address = 0x800000

abbrev pub virtual_128mb_start : ℕ
virtual_128mb_start = 0x08000000

-- A present, writable 4 MB page of the user at a frame.
abbrev pub user_pde : ℕ → Pde
user_pde f = record empty_pde { present = 1; write_read = 1; u_s = 1; page_size = 1; address = f }

-- `paging_execute`: the program page gets the 4 MB of process `pid`. The address field has 20 bits.
unfoldable pub paging_execute : ℕ → Kernel → Kernel
paging_execute pid k =
    let pd_index = virtual_address_program_start / 2 ^ 22 in
    record k {
      page_dir = put k.page_dir pd_index (user_pde ((0x00400 + 0x00400 + pid * 0x00400) % 2 ^ 20));
    }

-- `paging_halt`, which nothing calls. `pid - 1` wraps at 0.
unfoldable pub paging_halt : ℕ → Kernel → Kernel
paging_halt pid k =
    let pd_index = virtual_address_program_start / 2 ^ 22 in
    record k {
      page_dir =
          put k.page_dir pd_index
            (user_pde ((0x00400 + 0x00400 + (pid + 2 ^ 32 - 1) * 0x00400) % 2 ^ 20));
      process_count = k.process_count - 1;
    }

-- `paging_video_memory`: the video page of the scheduled terminal is the screen if that terminal
-- is shown, and its own backing page if not; the user's video page follows it, if mapped.
unfoldable pub paging_video_memory : Kernel → Kernel
paging_video_memory k =
    let shown = same k.active_terminal k.current_terminal in
    let id = (k.terminals k.active_terminal).terminal_id in
    let f = if shown then frame video_mem else frame video_mem + id in
    let e = k.pg_tab_1 (frame video_mem) in
    let v = k.vidmap_pg_tab_1 0 in
    let on = if (k.pcbs k.active_pid).vidmap_flag == 1 then 1 else 0 in
    record k {
      pg_tab_1 = put k.pg_tab_1 (frame video_mem) (record e { address = f });
      vidmap_pg_tab_1 = put k.vidmap_pg_tab_1 0 (record v { address = f; present = on });
    }

-- `syscall_enable_vidmap_paging`: the user's video page, behind a page table of its own.
unfoldable pub syscall_enable_vidmap_paging : Layout → Kernel → Kernel
syscall_enable_vidmap_paging layout k =
    let address = virtual_128mb_start + kernel_stack_base_address / 2 in
    let pd_index = address / 2 ^ 22 in
    let f = frame layout.vidmap_pg_tab_1_address in
    let e = kernel_pte (frame video_mem) in
    record k {
      page_dir =
          put k.page_dir pd_index
            (record empty_pde { present = 1; write_read = 1; u_s = 1; address = f });
      vidmap_pg_tab_1 = put k.vidmap_pg_tab_1 0 (record e { u_s = 1 });
    }
