-- ===== src/TerminalDriver/Typing/Edits.antt =====
-- A line that is edited while it is typed: characters, the backspace key, and keys that are let go.

use mathlib.Core.Path.{subst}
use light_os_a_linus_like_os.Common.{
  ℕ, zero, suc, ◌-◌, ◌<◌, ◌≤◌, ◌≡◌, refl, ◌≢◌, ◌⊎◌, ap, sym, ◌∙◌, List, [], ◌∷◌, ◌++◌, length, take,
  length-take, ltb, ◌==◌, lt→ltb, if◌then◌else◌, arith,
}
use light_os_a_linus_like_os.Kernel.{same_self, Terminal, Kernel, set_terminal, physical}
use light_os_a_linus_like_os.Console.{
  erase, current_terminal_back_putc, video_mem_direct, set_cursor_position,
}
use light_os_a_linus_like_os.Console.Fields.{move, erase-OnlyMoves}
use light_os_a_linus_like_os.Keyboard.{key_of}
use light_os_a_linus_like_os.Keyboard.Handler.{press_backspace}
use light_os_a_linus_like_os.TerminalDriver.Typing.{IsPlain, Typing, set_terminal_self}

-- A line without its last character.
abbrev pub shorten : List ℕ → List ℕ
shorten line = take (length line - 1) line

-- A scan code that the handler does nothing with: that of a key that is let go, except for Ctrl, the
-- two Shift keys and Alt, or of a key without a meaning.
pub record IsSilent (input : ℕ) : Type 0 where
  pub behind_table : 58 < input
  pub no_f1 : input ≢ 0x3B
  pub no_f2 : input ≢ 0x3C
  pub no_f3 : input ≢ 0x3D
  pub no_ctrl : input ≢ 0x9D
  pub no_left_shift : input ≢ 0xAA
  pub no_right_shift : input ≢ 0xB6
  pub no_alt : input ≢ 0xB8

-- What an editor does with a code.
abbrev pub edit : (ℕ → ℕ) → List ℕ → ℕ → List ℕ
edit keys line input =
    if input == 0x0E then shorten line else if ltb input 58 then line ++ (keys input ∷ []) else line

abbrev pub edited : (ℕ → ℕ) → List ℕ → List ℕ → List ℕ
edited keys line [] = line
edited keys line (input ∷ inputs) = edited keys (edit keys line input) inputs

-- The codes that belong to a line: a character other than Enter with room for it, a backspace while
-- the terminal's `overflow` `o` is 0, or nothing.
abbrev pub IsTyped : (ℕ → ℕ) → ℕ → List ℕ → ℕ → Type 0
IsTyped keys o line input =
    (IsPlain input × (keys input ≢ b'\n') × (length line < 128))
    ⊎ ((input ≡ 0x0E) × (o ≡ 0))
    ⊎ IsSilent input

abbrev pub AllTyped : (ℕ → ℕ) → ℕ → List ℕ → List ℕ → Type 0
AllTyped keys o line [] = Unit
AllTyped keys o line (input ∷ inputs) =
    IsTyped keys o line input × AllTyped keys o (edit keys line input) inputs

take-take : (m n : ℕ) (xs : List ℕ) → m ≤ n → take m (take n xs) ≡ take m xs
take-take zero n xs le = refl
take-take (suc m) zero xs le = absurd (omega arith)
take-take (suc m) (suc n) [] le = refl
take-take (suc m) (suc n) (x ∷ xs) le = ap (λ l. x ∷ l) (take-take m n xs (omega arith))

pub length-shorten : (line : List ℕ) → length (shorten line) ≡ length line - 1
length-shorten line = length-take (length line - 1) line (omega arith)

shortened-typed :
    (line buf : List ℕ)
    → take (length line) buf ≡ line
    → take (length (shorten line)) buf ≡ shorten line
shortened-typed line buf e =
    ap (λ n. take n buf) (length-shorten line)
    ∙ sym (take-take (length line - 1) (length line) buf (omega arith))
    ∙ ap (take (length line - 1)) e

-- The terminal that is shown, after the backspace has been printed.
erased_moves :
    (k : Kernel)
    → (x y : ℕ) × ((current_terminal_back_putc k).terminals k.current_terminal
        ≡ move x y (k.terminals k.current_terminal))
unfolding current_terminal_back_putc set_cursor_position
erased_moves k =
    let u = (erase (physical k video_mem_direct) (k.terminals k.current_terminal, k.memory)).0 in
    (
      u.screen_x,
      u.screen_y,
      rw (same_self k.current_terminal)
          (erase-OnlyMoves (physical k video_mem_direct) (k.terminals k.current_terminal) k.memory),
    )

erased_keeps :
    (k : Kernel)
    → ((current_terminal_back_putc k).current_terminal ≡ k.current_terminal)
      × ((current_terminal_back_putc k).active_terminal ≡ k.active_terminal)
      × ((current_terminal_back_putc k).ctrl_pressed ≡ k.ctrl_pressed)
      × ((input : ℕ) → key_of input (current_terminal_back_putc k) ≡ key_of input k)
unfolding current_terminal_back_putc set_cursor_position key_of
erased_keeps k = (refl, refl, refl, λ input. refl)

abbrev one_less : Kernel → Kernel
one_less k =
    let t = k.terminals k.current_terminal in
    set_terminal k.current_terminal (record t { keyboard_buffer_size = t.keyboard_buffer_size - 1 })
      k

press_backspace-empty :
    (k : Kernel)
    → (k.terminals k.current_terminal).overflow ≡ 0
    → (k.terminals k.current_terminal).keyboard_buffer_size ≡ 0
    → press_backspace k ≡ k
unfolding press_backspace
press_backspace-empty k e z = rw (e, z) refl

press_backspace-erase :
    (k : Kernel)
    → (k.terminals k.current_terminal).overflow ≡ 0
    → 0 < (k.terminals k.current_terminal).keyboard_buffer_size
    → press_backspace k ≡ current_terminal_back_putc (one_less k)
unfolding press_backspace
press_backspace-erase k e lt =
    rw (e, lt→ltb 0 (k.terminals k.current_terminal).keyboard_buffer_size lt) refl

erased-Typing :
    {o : ℕ} (line : List ℕ) (k : Kernel)
    → Typing o line 1 k
    → Typing o (shorten line) 1 (current_terminal_back_putc (one_less k))
erased-Typing line k t =
    let old = k.terminals k.current_terminal in
    let (x, y, moved) = erased_moves (one_less k) in
    let (cur, act, ctrl, keys) = erased_keeps (one_less k) in
    let shown = current_terminal_back_putc (one_less k) in
    let here : shown.terminals shown.current_terminal
        ≡ move x y (record old { keyboard_buffer_size = old.keyboard_buffer_size - 1 }) =
      ap shown.terminals cur
      ∙ moved
      ∙ ap (move x y) (
          set_terminal_self k k (record old { keyboard_buffer_size = old.keyboard_buffer_size - 1 })
            refl) in
    record {
      scheduled = act ∙ t.scheduled ∙ sym cur;
      no_control = ctrl ∙ t.no_control;
      enabled = ap (λ (u : Terminal). u.keyboard_buffer_enable) here ∙ t.enabled;
      overflows = ap (λ (u : Terminal). u.overflow) here ∙ t.overflows;
      counts =
          ap (λ (u : Terminal). u.keyboard_buffer_size) here
          ∙ ap (λ n. n - 1) t.counts
          ∙ sym (length-shorten line);
      buffer = ap (λ (u : Terminal). length u.key_buf) here ∙ t.buffer;
      typed =
          ap (λ (u : Terminal). take (length (shorten line)) u.key_buf) here
          ∙ shortened-typed line old.key_buf t.typed;
    }

-- The backspace key takes the last character away, if there is one.
pub press_backspace-Typing :
    {o : ℕ} (line : List ℕ) (k : Kernel)
    → Typing o line 1 k
    → o ≡ 0
    → Typing o (shorten line) 1 (press_backspace k)
      × ((other : ℕ) → key_of other (press_backspace k) ≡ key_of other k)
unfolding key_of
press_backspace-Typing {o} [] k t z =
    let same = press_backspace-empty k (t.overflows ∙ z) t.counts in
    (subst (Typing o [] 1) (sym same) t, λ other. ap (λ k'. key_of other k') same)
press_backspace-Typing {o} (c ∷ line) k t z =
    let same = press_backspace-erase k (t.overflows ∙ z) (omega (arith, t.counts)) in
    (
      subst (Typing o (shorten (c ∷ line)) 1) (sym same) (erased-Typing (c ∷ line) k t),
      λ other. ap (λ k'. key_of other k') same ∙ (erased_keeps (one_less k)).3 other,
    )
