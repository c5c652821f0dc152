-- ===== src/Tests/Screens.antt =====
-- Examples for the screen and the keyboard.
use light_os_a_linus_like_os.Common.{
  ◌⊎◌, List, inl, inr, ◌≢◌, ℕ, pos, get_or, ◌+◌, ◌*◌, ◌≡◌, refl, ◌↔◌, some, none, [], ◌∷◌, ◌==◌,
  ltb, true, false, if◌then◌else◌, arith,
}
use light_os_a_linus_like_os.Memory.{Bytes}
use light_os_a_linus_like_os.Kernel.{
  set_terminal, Kernel, terminal_1, terminal_2, terminal_3, same, Terminal,
}
use light_os_a_linus_like_os.Console.{scroll, emit, erase, putc, blank_cell, attrib}
use light_os_a_linus_like_os.Console.Emit.{IsOnScreen, position, emit-printable, erase-emit}
use light_os_a_linus_like_os.Console.Routing.{putc-isolated}
use light_os_a_linus_like_os.Paging.Maps.{backing}
use light_os_a_linus_like_os.Keyboard.Switch.{
  switch_to, Switched, switch_to-Switched, switch_and_back,
}
use light_os_a_linus_like_os.Keyboard.Handler.{keyboard_handler}
use light_os_a_linus_like_os.Keyboard.Handler.Faults.{Faults, keyboard_handler-Faults}
use light_os_a_linus_like_os.Keyboard.Handler.Keeps.{AllSound, keyboard_handler-AllSound}
use light_os_a_linus_like_os.Keyboard.{key_of}
use light_os_a_linus_like_os.TerminalDriver.{returned, terminal_read}
use light_os_a_linus_like_os.TerminalDriver.Typing.{IsPlain}
use light_os_a_linus_like_os.TerminalDriver.Typing.Edits.{IsSilent}
use light_os_a_linus_like_os.TerminalDriver.Typing.Reads.{IsIdle, terminal_read-line}
use light_os_a_linus_like_os.Tests.{zeros, terminal, kernel, kernel-HasFrames}

start-IsOnScreen : IsOnScreen (terminal terminal_1)
start-IsOnScreen = record { column = omega arith; row = omega arith; below = λ e. refl }

kernel-AllSound : AllSound kernel
kernel-AllSound i = record {
  buffer = refl;
  fits = omega arith;
  on = record { column = omega arith; row = omega arith; below = λ e. refl };
}

-- The cursor below the last row.
abbrev full : Terminal
full = let t = terminal terminal_1 in record t { screen_y = 25 }

full-IsOnScreen : IsOnScreen full
full-IsOnScreen = record { column = omega arith; row = omega arith; below = λ e. refl }

emit-printable_example :
    let (t', m') = emit 0xB8000 b'a' (full, zeros) in
    (position t' ≡ 1921)
    × (m' 0xB8F00 ≡ (
        if 0xB8F00 == 0xB8000 + 1920 * 2
        then b'a'
        else if 0xB8F00 == 0xB8000 + 1920 * 2 + 1
        then attrib
        else scroll 0xB8000 zeros 0xB8F00))
emit-printable_example = emit-printable 0xB8000 b'a' full zeros 0xB8F00 full-IsOnScreen refl

erase-emit_example :
    let (t', m') = erase 0xB8000 (emit 0xB8000 b'a' (terminal terminal_1, zeros)) in
    (t' ≡ terminal terminal_1)
    × (m' 0xB8000 ≡ blank_cell 0xB8000 (position (terminal terminal_1)) zeros 0xB8000)
erase-emit_example =
    erase-emit 0xB8000 b'a' (terminal terminal_1) zeros 0xB8000 start-IsOnScreen (omega arith) refl

putc-isolated_example :
    (same terminal_1 terminal_2 ≡ false
      → (putc b'a' kernel).memory (backing terminal_2 + 0) ≡ kernel.memory (backing terminal_2 + 0))
    × (same terminal_1 terminal_1 ≡ false
        → (putc b'a' kernel).memory (0xB8000 + 0) ≡ kernel.memory (0xB8000 + 0))
    × (same terminal_1 terminal_1 ≡ true
        → (putc b'a' kernel).memory (backing terminal_2 + 0)
          ≡ kernel.memory (backing terminal_2 + 0))
putc-isolated_example = putc-isolated b'a' kernel terminal_2 0 refl start-IsOnScreen (omega arith)

switch_to-Switched_example : Switched terminal_2 kernel (switch_to terminal_2 kernel)
switch_to-Switched_example = switch_to-Switched terminal_2 kernel kernel-HasFrames refl

switch_and_back_example :
    (switch_to terminal_1 (switch_to terminal_3 kernel)).memory (0xB8000 + 7)
    ≡ kernel.memory (0xB8000 + 7)
switch_and_back_example =
    switch_and_back terminal_1 terminal_3 kernel 7 kernel-HasFrames refl refl (omega arith)

-- A reader waits, and 128 characters have been typed.
abbrev full_line : Kernel
full_line =
    let t = terminal terminal_1 in
    set_terminal terminal_1 (record t { keyboard_buffer_size = 128; keyboard_buffer_enable = 1 })
      kernel

keyboard_handler-AllSound_example :
    (Faults 0x1E kernel × (keyboard_handler 0x1E kernel ≡ none))
    ⊎ ((k' : Kernel) × (keyboard_handler 0x1E kernel ≡ some k') × AllSound k')
keyboard_handler-AllSound_example = keyboard_handler-AllSound 0x1E kernel kernel-AllSound

keyboard_handler-Faults_example : (keyboard_handler 0x1E full_line ≡ none) ↔ Faults 0x1E full_line
keyboard_handler-Faults_example = keyboard_handler-Faults 0x1E full_line

idle : IsIdle kernel
idle = record { scheduled = refl; no_control = refl; empty = refl; buffer = refl }

-- The keys l, s and Enter.
pub IsPlain-l : IsPlain 0x26
IsPlain-l = omega arith

pub IsPlain-s : IsPlain 0x1F
IsPlain-s = omega arith

pub IsPlain-enter : IsPlain 0x1C
IsPlain-enter = omega arith

pub lower_l : key_of 0x26 kernel ≢ b'\n'
unfolding key_of
lower_l = omega arith

pub lower_s : key_of 0x1F kernel ≢ b'\n'
unfolding key_of
lower_s = omega arith

pub lower_enter : key_of 0x1C kernel ≡ b'\n'
unfolding key_of
lower_enter = refl

-- `l`, `s`, a backspace, a key that is let go, `s`.
abbrev pub presses : List ℕ
presses = 0x26 ∷ 0x1F ∷ 0x0E ∷ 0x9F ∷ 0x1F ∷ []

abbrev pub table : ℕ → ℕ
table input = key_of input kernel

pub let_go : IsSilent 0x9F
let_go = record {
  behind_table = omega arith;
  no_f1 = omega arith;
  no_f2 = omega arith;
  no_f3 = omega arith;
  no_ctrl = omega arith;
  no_left_shift = omega arith;
  no_right_shift = omega arith;
  no_alt = omega arith;
}

terminal_read-line_example :
    (k' : Kernel) × (out : Bytes) × (terminal_read
        (some zeros)
        10
        (0x26 ∷ 0x1F ∷ 0x0E ∷ 0x9F ∷ 0x1F ∷ 0x1C ∷ 0x1E ∷ [])
        kernel
      ≡ returned k' (0x1E ∷ []) (pos 3) (some out))
    × ((j : ℕ)
        → out j ≡ (
            if j + 1 == 3
            then b'\n'
            else if ltb j 3
            then get_or (table 0x26 ∷ table 0x1F ∷ []) j 0
            else 0))
terminal_read-line_example =
    terminal_read-line table 0x1C presses (0x1E ∷ []) kernel zeros 10 (λ other. refl) IsPlain-enter
      lower_enter
      (
        inl (IsPlain-l, lower_l, omega arith),
        (
          inl (IsPlain-s, lower_s, omega arith),
          (inr (inl (refl, refl)), (inr (inr let_go), (inl (IsPlain-s, lower_s, omega arith), tt))),
        ),
      )
      (omega arith) idle (omega arith)
