-- ===== src/Keyboard/Handler/Faults.antt =====
-- When a key is written behind the line buffer.
use mathlib.Core.Option
use light_os_a_linus_like_os.Common.{
  ℕ, ◌≤◌, ◌≡◌, ◌≢◌, ◌↔◌, ◌∙◌, refl, ap, Option, none, some, Bool, true, false, ◌&&◌, ◌||◌, ltb,
  ◌==◌, if◌then◌else◌, Bool-cases, inl, inr, ltb→lt, arith,
}
use light_os_a_linus_like_os.Kernel.{Terminal, Kernel, set_terminal}
use light_os_a_linus_like_os.Console.{current_terminal_putc}
use light_os_a_linus_like_os.Console.Fields.{move}
use light_os_a_linus_like_os.I8259.{send_eoi}
use light_os_a_linus_like_os.Keyboard.{key_of}
use light_os_a_linus_like_os.Keyboard.Handler.{
  is_set, is_clear_key, store_key, press_key, handle_input, keyboard_handler,
}
use light_os_a_linus_like_os.TerminalDriver.Typing.{
  IsPlain, handle_input-plain, shown_moves, shown_keeps,
}

-- A reader waits at the terminal, its buffer is full, and the key is not Enter.
abbrev pub Overruns : ℕ → Terminal → Type 0
Overruns key t = (128 ≤ t.keyboard_buffer_size) × (t.keyboard_buffer_enable ≢ 0) × (key ≢ b'\n')

-- The scan code is that of a key with a character, which does not clear the screen, and the
-- terminal that is shown is in this state.
abbrev pub Faults : ℕ → Kernel → Type 0
Faults input k =
    IsPlain input
    × (is_clear_key (key_of input k) k ≡ false)
    × Overruns (key_of input k) (k.terminals k.current_terminal)

-- The part of the handler that stores a key.
store_key-Overruns : (key : ℕ) (t : Terminal) → (store_key key t ≡ none) ↔ Overruns key t
unfolding store_key
store_key-Overruns key t = (λ e. (ground arith, ground arith, ground arith), λ o. ground arith)

map-none : {A B : Type 0} (f : A → B) (o : Option A) → (Option.map f o ≡ none) ↔ (o ≡ none)
map-none f none = (λ e. refl, λ e. refl)
map-none f (some a) = (λ e. ground arith, λ e. ground arith)

-- Printing the key changes neither the control key nor what the terminal's buffer holds.
clear_key-shown :
    (key : ℕ) (k : Kernel) → is_clear_key key (current_terminal_putc key k) ≡ is_clear_key key k
clear_key-shown key k =
    let (cur, act, ctrl, keys) = shown_keeps key k in
    ap (λ c. (key == b'l' || key == b'L') && is_set c) ctrl

press_key-stores :
    (key : ℕ) (k : Kernel)
    → is_clear_key key k ≡ false
    → (x y : ℕ) × ((press_key key k ≡ none)
        ↔ (store_key key (move x y (k.terminals k.current_terminal)) ≡ none))
unfolding press_key
press_key-stores key k e =
    let (x, y, s) = shown_moves key k in
    let (cur, act, ctrl, keys) = shown_keeps key k in
    let shown = current_terminal_putc key k in
    let here : shown.terminals shown.current_terminal ≡ move x y (k.terminals k.current_terminal) =
      ap shown.terminals cur ∙ s in
    (
      x,
      y,
      rw (clear_key-shown key k ∙ e, here)
          (map-none {A = Terminal} (λ u. set_terminal shown.current_terminal u shown)
            (store_key key (move x y (k.terminals k.current_terminal)))),
    )

press_key-Overruns :
    (key : ℕ) (k : Kernel)
    → is_clear_key key k ≡ false
    → (press_key key k ≡ none) ↔ Overruns key (k.terminals k.current_terminal)
press_key-Overruns key k e =
    let (x, y, same_fault) = press_key-stores key k e in
    let (there, back) = same_fault in
    let (overruns, faults) = store_key-Overruns key (move x y (k.terminals k.current_terminal)) in
    (λ n. overruns (there n), λ o. back (faults o))

press_key-clears : (key : ℕ) (k : Kernel) → is_clear_key key k ≡ true → press_key key k ≢ none
unfolding press_key
press_key-clears key k e n = none_some (rw (clear_key-shown key k ∙ e) at n)
  where
    none_some : {u : Kernel} → some u ≢ none
    none_some h = ground arith

-- A rung of the handler's ladder that does not fault.
passes :
    (b : Bool) (k : Kernel) (o : Option Kernel)
    → (if b then some k else o) ≡ none
    → (b ≡ false) × (o ≡ none)
passes true k o h = absurd (none_some h)
  where
    none_some : some k ≢ none
    none_some e = ground arith
passes false k o h = (refl, h)

-- What is left of the handler's ladder after a fault.
handle_input-none :
    (input : ℕ) (k : Kernel)
    → handle_input input k ≡ none
    → IsPlain input × (press_key (key_of input k) k ≡ none)
unfolding handle_input
handle_input-none input k h =
    let (alt, h1) = passes (input == 0x38) _ _ h in
    let (alt_up, h2) = passes (input == 0xB8) _ _ h1 in
    let (ctrl, h3) = passes (input == 0x1D) _ _ h2 in
    let (ctrl_up, h4) = passes (input == 0x9D) _ _ h3 in
    let (left, h5) = passes (input == 0x2A) _ _ h4 in
    let (left_up, h6) = passes (input == 0xAA) _ _ h5 in
    let (right, h7) = passes (input == 0x36) _ _ h6 in
    let (right_up, h8) = passes (input == 0xB6) _ _ h7 in
    let (caps, h9) = passes (input == 0x3A) _ _ h8 in
    let (back, h10) = passes (input == 0x0E) _ _ h9 in
    elim (Bool-cases (ltb input 58)) [
      | inl e ↦ (
        record {
          in_table = ltb→lt input 58 e;
          no_ctrl = differ input 0x1D ctrl;
          no_left_shift = differ input 0x2A left;
          no_right_shift = differ input 0x36 right;
          no_alt = differ input 0x38 alt;
          no_caps = differ input 0x3A caps;
          no_backspace = differ input 0x0E back;
        },
        rw e at h10,
      )
      | inr e ↦
          let (f1, h11) = passes (input == 0x3B && is_set k.alt_pressed) _ _ (rw e at h10) in
          let (f2, h12) = passes (input == 0x3C && is_set k.alt_pressed) _ _ h11 in
          let (f3, h13) = passes (input == 0x3D && is_set k.alt_pressed) _ _ h12 in
          absurd (returns h13)
    ]
  where
    differ : (a b : ℕ) → (a == b) ≡ false → a ≢ b
    differ a b e = ground arith

    returns : some k ≢ none
    returns e = ground arith

-- The handler writes behind the line buffer exactly when the key that is pressed has a character
-- and does not clear the screen, a reader waits at the terminal that is shown, the 128 bytes of its
-- line buffer are in use, and the key is not Enter.
pub keyboard_handler-Faults :
    (input : ℕ) (k : Kernel) → (keyboard_handler input k ≡ none) ↔ Faults input k
unfolding keyboard_handler
keyboard_handler-Faults input k = (
  λ h.
      let (plain, stuck) =
        handle_input-none input k ((map-none (send_eoi 1) (handle_input input k)).0 h) in
      elim (Bool-cases (is_clear_key (key_of input k) k)) [
        | inl e ↦ absurd (press_key-clears (key_of input k) k e stuck)
        | inr e ↦ (plain, e, (press_key-Overruns (key_of input k) k e).0 stuck)
      ],
  λ f.
      let (plain, e, overruns) = f in
      (map-none (send_eoi 1) (handle_input input k)).1
        (handle_input-plain input k plain ∙ (press_key-Overruns (key_of input k) k e).1 overruns),
)
