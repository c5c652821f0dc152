-- ===== src/Keyboard/Handler/Keeps.antt =====
-- The handler keeps the three terminals well formed.
use Prim.Native.Nat.{bit_or}
use light_os_a_linus_like_os.Common.{
  ℕ, ◌≤◌, ◌≡◌, ◌-◌, ◌∙◌, refl, ap, Holds, Holds-map, inl, inr, Bool-cases, length, length-set,
  arith, ltb, Bool, true, false, Option, some, none, ◌⊎◌, Option-cases, ◌==◌, ◌&&◌, if◌then◌else◌,
}
use light_os_a_linus_like_os.Kernel.{
  TerminalId, terminal_1, terminal_2, terminal_3, Terminal, Kernel, same, set_terminal, physical,
}
use light_os_a_linus_like_os.Console.{
  emit, erase, current_terminal_putc, current_terminal_back_putc, current_terminal_clear,
  video_mem_direct, set_cursor_position,
}
use light_os_a_linus_like_os.Console.Emit.{IsOnScreen, emit-IsOnScreen, erase-IsOnScreen}
use light_os_a_linus_like_os.Console.Fields.{OnlyMoves, move, emit-OnlyMoves, erase-OnlyMoves}
use light_os_a_linus_like_os.Keyboard.Handler.{
  store_key, press_key, press_backspace, is_clear_key, is_set, keyboard_key_number, handle_input,
  keyboard_handler,
}
use light_os_a_linus_like_os.Keyboard.Handler.Faults.{Faults, keyboard_handler-Faults}
use light_os_a_linus_like_os.Keyboard.Switch.{switch_to}
use light_os_a_linus_like_os.Keyboard.{
  switch_to_terminal_1, switch_to_terminal_2, switch_to_terminal_3, key_of,
}
use light_os_a_linus_like_os.I8259.{send_eoi}
use light_os_a_linus_like_os.Paging.{paging_video_memory}

-- A terminal's line buffer has 128 bytes, at most that many are in use, and the cursor is in place.
pub record IsSound (t : Terminal) : Type 0 where
  pub buffer : length t.key_buf ≡ 128
  pub fits : t.keyboard_buffer_size ≤ 128
  pub on : IsOnScreen t

abbrev pub AllSound : Kernel → Type 0
AllSound k = (i : TerminalId) → IsSound (k.terminals i)

pub OnlyMoves-IsSound : (t u : Terminal) → IsSound t → OnlyMoves t u → IsOnScreen u → IsSound u
OnlyMoves-IsSound t u s e on = record {
  buffer = ap (λ (v : Terminal). length v.key_buf) e ∙ s.buffer;
  fits = rw (ap (λ (v : Terminal). v.keyboard_buffer_size) e) s.fits;
  on = on;
}

pub set_terminal-AllSound :
    (id : TerminalId) (t : Terminal) (k : Kernel)
    → IsSound t
    → AllSound k
    → AllSound (set_terminal id t k)
set_terminal-AllSound id t k s all i = elim (Bool-cases (same id i)) [
  | inl e ↦ rw e s
  | inr e ↦ rw e (all i)
]

putc-AllSound : (c : ℕ) (k : Kernel) → AllSound k → AllSound (current_terminal_putc c k)
unfolding current_terminal_putc
putc-AllSound c k all =
    let t = k.terminals k.current_terminal in
    let base = physical k video_mem_direct in
    set_terminal-AllSound k.current_terminal (emit base c (t, k.memory)).0 k
      (OnlyMoves-IsSound t _ (all k.current_terminal) (emit-OnlyMoves base c t k.memory)
        (emit-IsOnScreen base c t k.memory (all k.current_terminal).on))
      all

back_putc-AllSound : (k : Kernel) → AllSound k → AllSound (current_terminal_back_putc k)
unfolding current_terminal_back_putc
back_putc-AllSound k all =
    let t = k.terminals k.current_terminal in
    let base = physical k video_mem_direct in
    set_terminal-AllSound k.current_terminal (erase base (t, k.memory)).0 k
      (OnlyMoves-IsSound t _ (all k.current_terminal) (erase-OnlyMoves base t k.memory)
        (erase-IsOnScreen base t k.memory (all k.current_terminal).on))
      all

clear-AllSound : (k : Kernel) → AllSound k → AllSound (current_terminal_clear k)
unfolding current_terminal_clear
clear-AllSound k all =
    let t = k.terminals k.current_terminal in
    set_terminal-AllSound k.current_terminal (move 0 0 t) k
      (OnlyMoves-IsSound t (move 0 0 t) (all k.current_terminal) refl (omega arith)) all

resize-IsSound :
    (n : ℕ) (t : Terminal) → n ≤ 128 → IsSound t → IsSound (record t { keyboard_buffer_size = n })
resize-IsSound n t h s = omega arith

overflow-IsSound : (n : ℕ) (t : Terminal) → IsSound t → IsSound (record t { overflow = n })
overflow-IsSound n t s = omega arith

store_key-IsSound : (key : ℕ) (t : Terminal) → IsSound t → Holds IsSound (store_key key t)
unfolding store_key
store_key-IsSound key t s = ground (
  arith,
  length-set t.key_buf 127 b'\n',
  length-set t.key_buf t.keyboard_buffer_size b'\n',
  length-set t.key_buf t.keyboard_buffer_size key,
)

press_key-AllSound : (key : ℕ) (k : Kernel) → AllSound k → Holds AllSound (press_key key k)
unfolding press_key
press_key-AllSound key k all =
    let shown = current_terminal_putc key k in
    let sound = putc-AllSound key k all in
    let cleared = current_terminal_clear shown in
    let id = cleared.current_terminal in
    let t = cleared.terminals id in
    let s = clear-AllSound shown sound id in
    elim (Bool-cases (is_clear_key key shown)) [
      | inl e ↦ rw e (
          set_terminal-AllSound id (record t { keyboard_buffer_size = 0 }) cleared
            (resize-IsSound 0 t (omega arith) s) (clear-AllSound shown sound))
      | inr e ↦ rw e (
          Holds-map IsSound AllSound (λ u. set_terminal shown.current_terminal u shown)
            (store_key key (shown.terminals shown.current_terminal))
            (store_key-IsSound key (shown.terminals shown.current_terminal)
              (sound shown.current_terminal))
            (λ u h. set_terminal-AllSound shown.current_terminal u shown h sound))
    ]

press_backspace-AllSound : (k : Kernel) → AllSound k → AllSound (press_backspace k)
unfolding press_backspace
press_backspace-AllSound k all =
    let id = k.current_terminal in
    let t = k.terminals id in
    let s = all id in
    elim (Bool-cases (ltb 0 t.overflow)) [
      | inl e ↦ rw e (
          set_terminal-AllSound id (record t { overflow = t.overflow - 1 }) k
            (overflow-IsSound (t.overflow - 1) t s) all)
      | inr e ↦ elim (Bool-cases (ltb 0 t.keyboard_buffer_size)) [
        | inl f ↦
            rw (e, f)
              (back_putc-AllSound _ (
                set_terminal-AllSound id
                  (record t { keyboard_buffer_size = t.keyboard_buffer_size - 1 }) k
                  (resize-IsSound (t.keyboard_buffer_size - 1) t (omega (arith, s.fits)) s) all))
        | inr f ↦ rw (e, f) all
      ]
    ]

-- A switch changes no terminal.
switch-AllSound : (i : TerminalId) (k : Kernel) → AllSound k → AllSound (switch_to i k)
unfolding switch_to_terminal_1 switch_to_terminal_2 switch_to_terminal_3 paging_video_memory
    set_cursor_position
switch-AllSound terminal_1 k all i = elim (Bool-cases (same k.current_terminal terminal_1)) [
  | inl e ↦ rw e (all i)
  | inr e ↦ rw e (all i)
]
switch-AllSound terminal_2 k all i = elim (Bool-cases (same k.current_terminal terminal_2)) [
  | inl e ↦ rw e (all i)
  | inr e ↦ rw e (all i)
]
switch-AllSound terminal_3 k all i = elim (Bool-cases (same k.current_terminal terminal_3)) [
  | inl e ↦ rw e (all i)
  | inr e ↦ rw e (all i)
]

if-Holds :
    (b : Bool) (x y : Option Kernel)
    → Holds AllSound x
    → Holds AllSound y
    → Holds AllSound (if b then x else y)
if-Holds true x y h g = h
if-Holds false x y h g = g

handle_input-AllSound :
    (input : ℕ) (k : Kernel) → AllSound k → Holds AllSound (handle_input input k)
unfolding handle_input
handle_input-AllSound input k all =
    if-Holds (input == 0x38) (some (record k { alt_pressed = 1 })) _ all (
      if-Holds (input == 0xB8) (some (record k { alt_pressed = 0 })) _ all (
        if-Holds (input == 0x1D) (some (record k { ctrl_pressed = 1 })) _ all (
          if-Holds (input == 0x9D) (some (record k { ctrl_pressed = 0 })) _ all (
            if-Holds (input == 0x2A) (some (record k { shift_pressed = 1 })) _ all (
              if-Holds (input == 0xAA) (some (record k { shift_pressed = 0 })) _ all (
                if-Holds (input == 0x36) (some (record k { shift_pressed = 1 })) _ all (
                  if-Holds (input == 0xB6) (some (record k { shift_pressed = 0 })) _ all (
                    if-Holds (input == 0x3A) (some (record k { caps_lock = bit_or k.caps_lock 1 }))
                      _ all
                      (if-Holds (input == 0x0E) (some (press_backspace k)) _
                        (press_backspace-AllSound k all)
                        (if-Holds (ltb input keyboard_key_number) (press_key (key_of input k) k) _
                          (press_key-AllSound (key_of input k) k all)
                          (if-Holds (input == 0x3B && is_set k.alt_pressed)
                            (some (switch_to_terminal_1 k)) _ (switch-AllSound terminal_1 k all)
                            (if-Holds (input == 0x3C && is_set k.alt_pressed)
                              (some (switch_to_terminal_2 k)) _ (switch-AllSound terminal_2 k all)
                              (if-Holds (input == 0x3D && is_set k.alt_pressed)
                                (some (switch_to_terminal_3 k)) _ (switch-AllSound terminal_3 k all)
                                (all))))))))))))))

keyboard_handler-Holds :
    (input : ℕ) (k : Kernel) → AllSound k → Holds AllSound (keyboard_handler input k)
unfolding keyboard_handler send_eoi
keyboard_handler-Holds input k all =
    Holds-map AllSound AllSound (send_eoi 1) (handle_input input k)
      (handle_input-AllSound input k all) (λ u h. h)

-- If every terminal has a line buffer of 128 bytes, at most 128 of them in use, and its cursor on the
-- screen, then whatever scan code comes in, the handler either writes behind the line buffer, in the
-- states that `Faults` describes, or it returns, and every terminal is so again.
pub keyboard_handler-AllSound :
    (input : ℕ) (k : Kernel)
    → AllSound k
    → (Faults input k × (keyboard_handler input k ≡ none))
      ⊎ ((k' : Kernel) × (keyboard_handler input k ≡ some k') × AllSound k')
keyboard_handler-AllSound input k all = elim (Option-cases (keyboard_handler input k)) [
  | inl e ↦ inl ((keyboard_handler-Faults input k).0 e, e)
  | inr (k', e) ↦
      let held = keyboard_handler-Holds input k all in
      let sound : Holds AllSound (some k') = rw e at held in inr (k', e, sound)
]
