-- ===== src/Keyboard/Handler.antt =====
-- `keyboard_handler` of keyboard.c. `input` is the scan code that `inb(KEYBOARD_PORT)` gives.
pub mod Faults
pub mod Keeps
use Prim.Native.Nat.{bit_or}
use mathlib.Core.Option
use light_os_a_linus_like_os.Common.{
  ℕ, ◌+◌, ◌-◌, Option, none, some, Bool, not, ◌&&◌, ◌||◌, set, ltb, leb, ◌==◌, if◌then◌else◌,
}
use light_os_a_linus_like_os.Kernel.{Terminal, Kernel, set_terminal}
use light_os_a_linus_like_os.Console.{
  current_terminal_putc, current_terminal_back_putc, current_terminal_clear,
}
use light_os_a_linus_like_os.I8259.{send_eoi}
use light_os_a_linus_like_os.Keyboard.{
  key_of, switch_to_terminal_1, switch_to_terminal_2, switch_to_terminal_3,
}

abbrev pub keyboard_buffer_limit : ℕ
keyboard_buffer_limit = 128

abbrev pub keyboard_key_number : ℕ
keyboard_key_number = 58

-- A C integer as a condition.
abbrev pub is_set : ℕ → Bool
is_set n = not (n == 0)

-- `key_buf[i] = c`. A write behind the 128 bytes is a fault, `none`.
abbrev pub write_key : ℕ → ℕ → Terminal → Option Terminal
write_key i c t =
    if ltb i keyboard_buffer_limit then some (record t { key_buf = set t.key_buf i c }) else none

abbrev pub add_key : ℕ → Terminal → Option Terminal
add_key c t =
    Option.map {A = Terminal} (λ u. record u { keyboard_buffer_size = t.keyboard_buffer_size + 1 })
      (write_key t.keyboard_buffer_size c t)

-- What the handler does to the terminal that is shown, once it has printed the key.
unfoldable pub store_key : ℕ → Terminal → Option Terminal
store_key key t =
    if leb keyboard_buffer_limit t.keyboard_buffer_size
      && is_set t.keyboard_buffer_enable
      && key == b'\n'
    then Option.map {A = Terminal}
        (λ u. record u { keyboard_buffer_enable = 0; overflow = t.overflow + 1 })
        (write_key (keyboard_buffer_limit - 1) b'\n' t)
    else if key == b'\n' && is_set t.keyboard_buffer_enable
    then Option.map {A = Terminal} (λ u. record u { keyboard_buffer_enable = 0 }) (add_key b'\n' t)
    else if is_set t.keyboard_buffer_enable
    then add_key key t
    else some t

abbrev pub is_clear_key : ℕ → Kernel → Bool
is_clear_key key k = (key == b'l' || key == b'L') && is_set k.ctrl_pressed

-- A key of the table: it is printed, and clears the screen or goes into the buffer.
unfoldable pub press_key : ℕ → Kernel → Option Kernel
press_key key k =
    let shown = current_terminal_putc key k in
    let cleared = current_terminal_clear shown in
    let t = cleared.terminals cleared.current_terminal in
    if is_clear_key key shown
    then some
        (set_terminal cleared.current_terminal (record t { keyboard_buffer_size = 0 }) cleared)
    else Option.map {A = Terminal} (λ u. set_terminal shown.current_terminal u shown)
        (store_key key (shown.terminals shown.current_terminal))

unfoldable pub press_backspace : Kernel → Kernel
press_backspace k =
    let t = k.terminals k.current_terminal in
    if ltb 0 t.overflow
    then set_terminal k.current_terminal (record t { overflow = t.overflow - 1 }) k
    else if ltb 0 t.keyboard_buffer_size
    then current_terminal_back_putc (
        set_terminal k.current_terminal
          (record t { keyboard_buffer_size = t.keyboard_buffer_size - 1 }) k)
    else k

-- The ladder of the handler; the scan codes are those of keyboard.h.
unfoldable pub handle_input : ℕ → Kernel → Option Kernel
handle_input input k =
    if input == 0x38
    then some (record k { alt_pressed = 1 })
    else if input == 0xB8
    then some (record k { alt_pressed = 0 })
    else if input == 0x1D
    then some (record k { ctrl_pressed = 1 })
    else if input == 0x9D
    then some (record k { ctrl_pressed = 0 })
    else if input == 0x2A
    then some (record k { shift_pressed = 1 })
    else if input == 0xAA
    then some (record k { shift_pressed = 0 })
    else if input == 0x36
    then some (record k { shift_pressed = 1 })
    else if input == 0xB6
    then some (record k { shift_pressed = 0 })
    else if input == 0x3A
    then some (record k { caps_lock = bit_or k.caps_lock 1 })
    else if input == 0x0E
    then some (press_backspace k)
    else if ltb input keyboard_key_number
    then press_key (key_of input k) k
    else if input == 0x3B && is_set k.alt_pressed
    then some (switch_to_terminal_1 k)
    else if input == 0x3C && is_set k.alt_pressed
    then some (switch_to_terminal_2 k)
    else if input == 0x3D && is_set k.alt_pressed
    then some (switch_to_terminal_3 k)
    else some k

unfoldable pub keyboard_handler : ℕ → Kernel → Option Kernel
unfolding handle_input
keyboard_handler input k = Option.map (send_eoi 1) (handle_input input k)
