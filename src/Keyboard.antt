-- ===== src/Keyboard.antt =====
-- student-distrib/keyboard.c: the keyboard's interrupt handler, and the switch between terminals.
pub mod Handler
pub mod Switch
use Prim.Native.Nat.{bit_or}
use light_os_a_linus_like_os.Common.{ℕ, ◌+◌, ◌*◌, List, [], ◌∷◌, get_or, if◌then◌else◌}
use light_os_a_linus_like_os.Memory.{memcpy}
use light_os_a_linus_like_os.Kernel.{
  TerminalId, terminal_1, terminal_2, terminal_3, same, Terminal, Kernel, cli, sti, physical,
}
use light_os_a_linus_like_os.Console.{video_mem, video_mem_direct, set_cursor_position}
use light_os_a_linus_like_os.I8259.{enable_irq}
use light_os_a_linus_like_os.Paging.{paging_video_memory}

-- The two rows of `scancode`: without and with shift or caps lock.
abbrev plain_keys : List ℕ
plain_keys =
    0 ∷ 0 ∷ b'1' ∷ b'2' ∷ b'3' ∷ b'4' ∷ b'5' ∷ b'6' ∷ b'7' ∷ b'8' ∷ b'9' ∷ b'0' ∷ b'-' ∷ b'=' ∷ 0
    ∷ 0 ∷ b'q' ∷ b'w' ∷ b'e' ∷ b'r' ∷ b't' ∷ b'y' ∷ b'u' ∷ b'i' ∷ b'o' ∷ b'p' ∷ b'[' ∷ b']' ∷ b'\n'
    ∷ 0 ∷ b'a' ∷ b's' ∷ b'd' ∷ b'f' ∷ b'g' ∷ b'h' ∷ b'j' ∷ b'k' ∷ b'l' ∷ b';' ∷ 0x27 ∷ b'`' ∷ 0
    ∷ 0x5C ∷ b'z' ∷ b'x' ∷ b'c' ∷ b'v' ∷ b'b' ∷ b'n' ∷ b'm' ∷ b',' ∷ b'.' ∷ b'/' ∷ 0 ∷ 0 ∷ 0 ∷ b' '
    ∷ []

abbrev shifted_keys : List ℕ
shifted_keys =
    0 ∷ 0 ∷ b'!' ∷ b'@' ∷ b'#' ∷ b'$' ∷ b'%' ∷ b'^' ∷ b'&' ∷ b'*' ∷ b'(' ∷ b')' ∷ b'_' ∷ b'+' ∷ 0
    ∷ 0 ∷ b'Q' ∷ b'W' ∷ b'E' ∷ b'R' ∷ b'T' ∷ b'Y' ∷ b'U' ∷ b'I' ∷ b'O' ∷ b'P' ∷ b'{' ∷ b'}' ∷ b'\n'
    ∷ 0 ∷ b'A' ∷ b'S' ∷ b'D' ∷ b'F' ∷ b'G' ∷ b'H' ∷ b'J' ∷ b'K' ∷ b'L' ∷ b':' ∷ b'"' ∷ b'~' ∷ 0
    ∷ b'|' ∷ b'Z' ∷ b'X' ∷ b'C' ∷ b'V' ∷ b'B' ∷ b'N' ∷ b'M' ∷ b'<' ∷ b'>' ∷ b'?' ∷ 0 ∷ 0 ∷ 0 ∷ b' '
    ∷ []

pub scancode : List (List ℕ)
scancode = plain_keys ∷ shifted_keys ∷ []

-- `scancode[shift_pressed | caps_lock][input]`
unfoldable pub key_of : ℕ → Kernel → ℕ
unfolding scancode
key_of input k = get_or (get_or scancode (bit_or k.shift_pressed k.caps_lock) []) input 0

-- What `keyboard_init` gives to the terminal with a number. Its other fields stay.
abbrev init_terminal : ℕ → Terminal → Terminal
init_terminal n t = record t {
  terminal_id = n;
  screen_x = 0;
  screen_y = 0;
  keyboard_buffer_size = 0;
  keyboard_buffer_enable = 0;
  overflow = 0;
  video_address = video_mem + 4096 * n;
  current_process_id = 0;
  virtual_rate = 2;
}

unfoldable pub keyboard_init : (ℕ → ℕ) → Kernel → Kernel
keyboard_init inb k = enable_irq inb 1 (record k {
  terminals = elim [
    | terminal_1 ↦ init_terminal 1 (k.terminals terminal_1)
    | terminal_2 ↦ init_terminal 2 (k.terminals terminal_2)
    | terminal_3 ↦ init_terminal 3 (k.terminals terminal_3)
  ];
})

-- `memcpy` of the screen to the backing page of the terminal that is shown, and back.
save_screen : Kernel → Kernel
save_screen k =
    let to = physical k (k.terminals k.current_terminal).video_address in
    record k { memory = memcpy 4096 to (physical k video_mem_direct) k.memory k.memory }

restore_screen : Kernel → Kernel
restore_screen k =
    let from = physical k (k.terminals k.current_terminal).video_address in
    record k { memory = memcpy 4096 (physical k video_mem_direct) from k.memory k.memory }

abbrev show : TerminalId → Kernel → Kernel
show id k = record k { current_terminal = id }

set_cursor : Kernel → Kernel
set_cursor k = let t = k.terminals k.current_terminal in set_cursor_position t.screen_x t.screen_y k

unfoldable pub switch_to_terminal_1 : Kernel → Kernel
unfolding save_screen restore_screen set_cursor
switch_to_terminal_1 k =
    if same k.current_terminal terminal_1
    then k
    else sti
        (set_cursor (restore_screen (paging_video_memory (show terminal_1 (save_screen (cli k))))))

unfoldable pub switch_to_terminal_2 : Kernel → Kernel
unfolding save_screen restore_screen set_cursor
switch_to_terminal_2 k =
    if same k.current_terminal terminal_2
    then k
    else sti
        (set_cursor (paging_video_memory (restore_screen (show terminal_2 (save_screen (cli k))))))

unfoldable pub switch_to_terminal_3 : Kernel → Kernel
unfolding save_screen restore_screen set_cursor
switch_to_terminal_3 k =
    if same k.current_terminal terminal_3
    then k
    else sti
        (set_cursor (restore_screen (paging_video_memory (show terminal_3 (save_screen (cli k))))))
