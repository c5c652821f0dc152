-- ===== src/Paging/Maps.antt =====
-- What the page tables map: the hardware's walk through them after each function of paging.
use light_os_a_linus_like_os.Common.{
  ℕ, zero, suc, ◌+◌, ◌*◌, ◌/◌, ◌%◌, ◌^◌, ◌<◌, ◌≡◌, refl, ap, ◌∙◌, Option, none, some, true, ◌&&◌,
  ltb, leb, ◌==◌, if◌then◌else◌, arith,
}
use light_os_a_linus_like_os.Kernel.{
  TerminalId, terminal_1, terminal_2, terminal_3, number, Pde, Pte, Kernel, same, same_self, put,
}
use light_os_a_linus_like_os.Paging.{
  Layout, frame, empty_pde, empty_pte, kernel_pte, clear_directory, clear_table, first_pde,
  kernel_pde, video_pages, page_initialize, paging_execute, paging_video_memory,
}

clear_directory_lem :
    (rounds i : ℕ) (dir : ℕ → Pde) (j : ℕ)
    → clear_directory rounds i dir j ≡ (if leb i j && ltb j (i + rounds) then empty_pde else dir j)
unfolding clear_directory
clear_directory_lem zero i dir j = ground arith
clear_directory_lem (suc rounds) i dir j =
    ground (arith, clear_directory_lem rounds (suc i) (put dir i empty_pde) j)

clear_table_lem :
    (rounds i : ℕ) (tab : ℕ → Pte) (j : ℕ)
    → clear_table rounds i tab j ≡ (if leb i j && ltb j (i + rounds) then empty_pte else tab j)
unfolding clear_table
clear_table_lem zero i tab j = ground arith
clear_table_lem (suc rounds) i tab j =
    ground (arith, clear_table_lem rounds (suc i) (put tab i empty_pte) j)

-- The processor's walk: a 4 MB page, or an entry of the page table that the directory names.
abbrev walk_table : Pte → ℕ → Option ℕ
walk_table e v = if e.present == 1 then some (e.address * 4096 + v % 4096) else none

abbrev walk_directory : Layout → Kernel → Pde → ℕ → Option ℕ
walk_directory layout k d v =
    if d.present == 0
    then none
    else if d.page_size == 1
    then some (d.address * 4096 + v % 2 ^ 22)
    else if d.address == frame layout.pg_tab_1_address
    then walk_table (k.pg_tab_1 (v / 4096 % 1024)) v
    else if d.address == frame layout.vidmap_pg_tab_1_address
    then walk_table (k.vidmap_pg_tab_1 (v / 4096 % 1024)) v
    else none

abbrev pub translate : Layout → Kernel → ℕ → Option ℕ
translate layout k v = walk_directory layout k (k.page_dir (v / 2 ^ 22)) v

-- What the kernel is to see of memory after `page_initialize`.
abbrev pub initial_map : ℕ → Option ℕ
initial_map v =
    if ltb v 0xB7000
    then none
    else if ltb v 0xB8000
    then some (v + 4096)
    else if ltb v 0xBC000
    then some v
    else if ltb v 0x400000
    then none
    else if ltb v 0x800000
    then some v
    else none

-- The entries of the directory and of the table, whatever an entry is.
pick_directory :
    {A : Type 0} (f : ℕ → A) (a b c : A) (j : ℕ)
    → j < 1024
    → (if leb 2 j && ltb j (2 + 1022) then c else put (put f 0 a) 1 b j)
      ≡ (if j == 0 then a else if j == 1 then b else c)
pick_directory f a b c j h = ground arith

pick_table :
    {A : Type 0} (f : ℕ → A) (at : ℕ → A) (empty : A) (j : ℕ)
    → f j ≡ empty
    → put
        (put (put (put (put f 0xB7 (at 0xB8)) 0xB8 (at 0xB8)) 0xB9 (at 0xB9)) 0xBA (at 0xBA))
        0xBB
        (at 0xBB)
        j
      ≡ (if j == 0xB7 then at 0xB8 else if leb 0xB8 j && leb j 0xBB then at j else empty)
pick_table f at empty j h = ground arith

page_dir-initialize :
    (layout : Layout) (k : Kernel) (j : ℕ)
    → j < 1024
    → (page_initialize layout k).page_dir j
      ≡ (if j == 0 then first_pde layout else if j == 1 then kernel_pde else empty_pde)
unfolding page_initialize
page_dir-initialize layout k j h =
    clear_directory_lem 1022 2 (put (put k.page_dir 0 (first_pde layout)) 1 kernel_pde) j
    ∙ pick_directory k.page_dir (first_pde layout) kernel_pde empty_pde j h

cleared : (tab : ℕ → Pte) (j : ℕ) → j < 1024 → clear_table 1024 0 tab j ≡ empty_pte
cleared tab j h =
    clear_table_lem 1024 0 tab j
    ∙ let e : (leb 0 j && ltb j (0 + 1024)) ≡ true = ground arith in rw e

pg_tab_1-initialize :
    (layout : Layout) (k : Kernel) (j : ℕ)
    → j < 1024
    → (page_initialize layout k).pg_tab_1 j ≡ (
        if j == 0xB7
        then kernel_pte 0xB8
        else if leb 0xB8 j && leb j 0xBB
        then kernel_pte j
        else empty_pte)
unfolding page_initialize video_pages
pg_tab_1-initialize layout k j h =
    pick_table (clear_table 1024 0 k.pg_tab_1) kernel_pte empty_pte j (cleared k.pg_tab_1 j h)

-- After `page_initialize` the 4 GB of virtual memory hold: the five video pages of the first
-- 4 MB, of which the first shows the second's frame and the others stand for themselves; the
-- kernel's 4 MB, in place; and nothing else.
pub page_initialize-translate :
    (layout : Layout) (k : Kernel) (v : ℕ)
    → v < 2 ^ 32
    → translate layout (page_initialize layout k) v ≡ initial_map v
unfolding first_pde kernel_pde
page_initialize-translate layout k v h =
    rw (page_dir-initialize layout k (v / 2 ^ 22) (omega arith))
      (rw (pg_tab_1-initialize layout k (v / 4096 % 1024) (omega arith)) (ground arith))

-- Where the backing page of a terminal starts; the screen starts at 0xB8000.
abbrev pub backing : TerminalId → ℕ
backing i = 0xB8000 + 4096 * number i

-- The frames of the video pages that never change, and the numbers that the terminals carry.
pub record HasFrames (k : Kernel) : Type 0 where
  pub direct : (k.pg_tab_1 0xB7).address ≡ 0xB8
  pub backing : (i : TerminalId) → (k.pg_tab_1 (0xB8 + number i)).address ≡ 0xB8 + number i
  pub numbered : (i : TerminalId) → (k.terminals i).terminal_id ≡ number i
  pub addressed : (i : TerminalId) → (k.terminals i).video_address ≡ 0xB8000 + 4096 * number i

-- The video page of the scheduled terminal leads to the screen exactly if that terminal is shown.
abbrev pub IsRouted : Kernel → Type 0
IsRouted k =
    (k.pg_tab_1 0xB8).address
    ≡ (if same k.active_terminal k.current_terminal then 0xB8 else 0xB8 + number k.active_terminal)

-- `page_initialize` sets the frames up for terminals that carry their numbers.
pub page_initialize-HasFrames :
    (layout : Layout) (k : Kernel)
    → ((i : TerminalId) → (k.terminals i).terminal_id ≡ number i)
    → ((i : TerminalId) → (k.terminals i).video_address ≡ 0xB8000 + 4096 * number i)
    → k.active_terminal ≡ k.current_terminal
    → HasFrames (page_initialize layout k) × IsRouted (page_initialize layout k)
unfolding page_initialize
page_initialize-HasFrames layout k numbers addresses shown = (
  record {
    direct = ap (λ (e : Pte). e.address) (pg_tab_1-initialize layout k 0xB7 (omega arith));
    backing = elim [
      | terminal_1 ↦ ap (λ (e : Pte). e.address) (pg_tab_1-initialize layout k 0xB9 (omega arith))
      | terminal_2 ↦ ap (λ (e : Pte). e.address) (pg_tab_1-initialize layout k 0xBA (omega arith))
      | terminal_3 ↦ ap (λ (e : Pte). e.address) (pg_tab_1-initialize layout k 0xBB (omega arith))
    ];
    numbered = numbers;
    addressed = addresses;
  },
  ap (λ (e : Pte). e.address) (pg_tab_1-initialize layout k 0xB8 (omega arith))
      ∙ rw (shown, same_self k.current_terminal) refl,
)

-- It changes the tables alone.
pub page_initialize-terminals :
    (layout : Layout) (k : Kernel)
    → ((page_initialize layout k).terminals ≡ k.terminals)
      × ((page_initialize layout k).esp0 ≡ k.esp0)
unfolding page_initialize
page_initialize-terminals layout k = (refl, refl)

-- `paging_video_memory` routes the video page of whichever terminal is scheduled, and changes
-- neither the other video pages nor what the terminals carry.
pub paging_video_memory-IsRouted :
    (k : Kernel)
    → HasFrames k
    → HasFrames (paging_video_memory k) × IsRouted (paging_video_memory k)
unfolding paging_video_memory
paging_video_memory-IsRouted k h = (
  record {
    direct = h.direct;
    backing = λ i. keep i;
    numbered = h.numbered;
    addressed = h.addressed;
  },
  rw (h.numbered k.active_terminal),
)
  where
    keep :
        (i : TerminalId)
        → ((paging_video_memory k).pg_tab_1 (0xB8 + number i)).address ≡ 0xB8 + number i
    keep terminal_1 = h.backing terminal_1
    keep terminal_2 = h.backing terminal_2
    keep terminal_3 = h.backing terminal_3

-- The program page of process `pid` after `paging_execute`: the 4 MB from 8 MB + 4 MB * pid on,
-- whatever the tables held before, for each of the seven process numbers.
pub paging_execute-translate :
    (layout : Layout) (k : Kernel) (pid o : ℕ)
    → pid < 7
    → o < 2 ^ 22
    → translate layout (paging_execute pid k) (0x8000000 + o) ≡ some (0x800000 + pid * 2 ^ 22 + o)
unfolding paging_execute
paging_execute-translate layout k pid o h p =
    let e : (0x8000000 + o) / 2 ^ 22 ≡ 32 = omega arith in rw e (ground arith)
