-- ===== src/Console.antt =====
-- The console of student-distrib/lib.c: characters, scrolling and the cursor. `putc` writes for the
-- terminal that is scheduled, at `video_mem`; `current_terminal_putc` for the one that is shown, at
-- `video_mem_direct`.
pub mod Interrupts
pub mod Scroll
pub mod Emit
pub mod Blue
pub mod Fields
pub mod Routing
pub mod Keeps
use light_os_a_linus_like_os.Common.{
  ℕ, zero, suc, ◌+◌, ◌-◌, ◌*◌, ◌/◌, ◌%◌, ◌^◌, Bool, ◌&&◌, ◌||◌, List, [], ◌∷◌, ltb, leb, ◌==◌,
  if◌then◌else◌,
}
use light_os_a_linus_like_os.Memory.{Bytes, update}
use light_os_a_linus_like_os.Kernel.{Terminal, Kernel, set_terminal, outb, cli, sti, physical}

abbrev pub video_mem : ℕ
video_mem = 0xB8000

abbrev pub video_mem_direct : ℕ
video_mem_direct = 0xB7000

abbrev pub num_cols : ℕ
num_cols = 80

abbrev pub num_rows : ℕ
num_rows = 25

abbrev pub attrib : ℕ
attrib = 0x7

abbrev pub blue : ℕ
blue = 0x16

unfoldable pub set_cursor_position : ℕ → ℕ → Kernel → Kernel
set_cursor_position x y k =
    let character_position = (y * num_cols + x) % (num_rows * num_cols) in
    sti (
      outb character_position 0x3D5
        (outb 0x0f 0x3D4 (outb (character_position / 2 ^ 8) 0x3D5 (outb 0x0e 0x3D4 (cli k)))))

-- The cell of character `index` in the screen at physical address `base`, a character and its
-- attribute, gets a blank.
abbrev pub blank_cell : ℕ → ℕ → Bytes → Bytes
blank_cell base index m = update (update m (base + index * 2) b' ') (base + index * 2 + 1) attrib

-- The loops that blank `rounds` cells from `index` on.
pub blank_from : ℕ → ℕ → ℕ → Bytes → Bytes
blank_from base zero index m = m
blank_from base (suc rounds) index m = blank_from base rounds (suc index) (blank_cell base index m)

-- The loops that move `rounds` cells up by one row, from `index` on.
pub move_from : ℕ → ℕ → ℕ → Bytes → Bytes
move_from base zero index m = m
move_from base (suc rounds) index m =
    let m' = update m (base + index * 2) (m (base + (index + num_cols) * 2)) in
    move_from base rounds (suc index)
      (update m' (base + index * 2 + 1) (m' (base + (index + num_cols) * 2 + 1)))

-- Both loops: the screen scrolls up by one row.
pub scroll : ℕ → Bytes → Bytes
unfolding move_from blank_from
scroll base m =
    blank_from base num_cols ((num_rows - 1) * num_cols)
      (move_from base ((num_rows - 1) * num_cols) 0 m)

-- The three parts of `putc` on the terminal and the memory: a full screen scrolls first;
full_screen : ℕ → Terminal × Bytes → Terminal × Bytes
full_screen base (t, m) =
    if leb (num_rows * num_cols) (num_cols * t.screen_y + t.screen_x)
    then (record t { screen_x = 0; screen_y = num_rows - 1 }, scroll base m)
    else (t, m)

-- a line break goes to the next row, or scrolls in the last one;
line_break : ℕ → Terminal × Bytes → Terminal × Bytes
line_break base (t, m) =
    if leb num_rows (t.screen_y + 1)
    then (record t { screen_x = 0; screen_y = num_rows - 1 }, scroll base m)
    else (record t { screen_x = 0; screen_y = t.screen_y + 1 }, m)

-- any other character fills a cell and moves the cursor on.
put_cell : ℕ → ℕ → Terminal × Bytes → Terminal × Bytes
put_cell base c (t, m) =
    let cell = base + (num_cols * t.screen_y + t.screen_x) * 2 in
    let m' = update (update m cell c) (cell + 1) attrib in
    if leb num_cols (t.screen_x + 1)
    then (record t { screen_x = 0; screen_y = t.screen_y + 1 }, m')
    else (record t { screen_x = t.screen_x + 1 }, m')

abbrev pub is_line_break : ℕ → Bool
is_line_break c = c == b'\n' || c == b'\r'

-- The body that `putc` and `current_terminal_putc` share, for a screen at `base`.
pub emit : ℕ → ℕ → Terminal × Bytes → Terminal × Bytes
unfolding full_screen line_break put_cell
emit base c s =
    if is_line_break c
    then line_break base (full_screen base s)
    else put_cell base c (full_screen base s)

-- The body that `back_putc` and `current_terminal_back_putc` share.
pub erase : ℕ → Terminal × Bytes → Terminal × Bytes
erase base (t, m) =
    let t' =
      if t.screen_x == 0
      then record t { screen_x = num_cols - 1; screen_y = t.screen_y - 1 }
      else record t { screen_x = t.screen_x - 1 } in
    if t.screen_x == 0 && t.screen_y == 0
    then (t, m)
    else (t', blank_cell base (num_cols * t'.screen_y + t'.screen_x) m)

-- Puts the cursor where the terminal that is shown has it.
show_cursor : Kernel → Kernel
unfolding set_cursor_position
show_cursor k =
    let t = k.terminals k.current_terminal in set_cursor_position t.screen_x t.screen_y k

unfoldable pub putc : ℕ → Kernel → Kernel
unfolding show_cursor
putc c k =
    let (t, m) = emit (physical k video_mem) c (k.terminals k.active_terminal, k.memory) in
    show_cursor (set_terminal k.active_terminal t (record k { memory = m }))

unfoldable pub current_terminal_putc : ℕ → Kernel → Kernel
unfolding show_cursor
current_terminal_putc c k =
    let (t, m) = emit (physical k video_mem_direct) c (k.terminals k.current_terminal, k.memory) in
    show_cursor (set_terminal k.current_terminal t (record k { memory = m }))

unfoldable pub back_putc : Kernel → Kernel
unfolding show_cursor
back_putc k =
    let old = k.terminals k.active_terminal in
    let (t, m) = erase (physical k video_mem) (old, k.memory) in
    if old.screen_x == 0 && old.screen_y == 0
    then set_cursor_position old.screen_x old.screen_y k
    else show_cursor (set_terminal k.active_terminal t (record k { memory = m }))

-- Here the terminal that is written to is the one that is shown, so both ends set the cursor alike.
unfoldable pub current_terminal_back_putc : Kernel → Kernel
unfolding show_cursor
current_terminal_back_putc k =
    let (t, m) = erase (physical k video_mem_direct) (k.terminals k.current_terminal, k.memory) in
    show_cursor (set_terminal k.current_terminal t (record k { memory = m }))

unfoldable pub clear : Kernel → Kernel
unfolding show_cursor
clear k =
    let t = k.terminals k.active_terminal in
    let m = blank_from (physical k video_mem) (num_rows * num_cols) 0 k.memory in
    show_cursor (
      set_terminal k.active_terminal (record t { screen_x = 0; screen_y = 0 })
        (record k { memory = m }))

unfoldable pub current_terminal_clear : Kernel → Kernel
unfolding show_cursor
current_terminal_clear k =
    let t = k.terminals k.current_terminal in
    let m = blank_from (physical k video_mem_direct) (num_rows * num_cols) 0 k.memory in
    show_cursor (
      set_terminal k.current_terminal (record t { screen_x = 0; screen_y = 0 })
        (record k { memory = m }))

-- The loop of `blue_screen` with `rounds` cells left from `index` on.
unfoldable paint_from : ℕ → ℕ → ℕ → Bytes → Bytes
paint_from base zero index m = m
paint_from base (suc rounds) index m =
    paint_from base rounds (suc index) (update m (base + index * 2 + 1) blue)

unfoldable pub blue_screen : Kernel → Kernel
unfolding paint_from
blue_screen k = record k {
  memory = paint_from (physical k video_mem) (num_rows * num_cols) 0 k.memory;
}

-- `terminal_write`'s loop over its buffer, and the loop of `puts` over a string's characters.
unfoldable pub put_all : List ℕ → Kernel → Kernel
put_all [] k = k
put_all (c ∷ cs) k = put_all cs (putc c k)
