-- ===== src/TerminalDriver/Typing.antt =====
-- From the keyboard to the line: keyboard.c's handler, called while terminal.c waits.
pub mod Edits
pub mod Codes
pub mod Waits
pub mod Reads
use light_os_a_linus_like_os.Common.{
  ℕ, zero, suc, ◌+◌, ◌<◌, ◌≤◌, ◌≡◌, refl, ◌≢◌, ap, sym, ◌∙◌, Option, some, none, List, [], ◌∷◌,
  ◌++◌, length, take, set, true, false, ◌&&◌, ltb, length-set, length-snoc, take-set_next, ◌==◌,
  if◌then◌else◌, Bool-cases, inl, inr, arith,
}
use light_os_a_linus_like_os.Memory.{Bytes}
use light_os_a_linus_like_os.Kernel.{same_self, same, Terminal, Kernel, set_terminal, physical}
use light_os_a_linus_like_os.Console.{
  emit, current_terminal_putc, video_mem_direct, set_cursor_position,
}
use light_os_a_linus_like_os.Console.Fields.{move, emit-OnlyMoves}
use light_os_a_linus_like_os.I8259.{send_eoi}
use light_os_a_linus_like_os.Keyboard.{key_of}
use light_os_a_linus_like_os.Keyboard.Handler.{
  handle_input, press_key, store_key, keyboard_handler, is_set, is_clear_key,
}
use light_os_a_linus_like_os.TerminalDriver.{wait_line, ready}
use light_os_a_linus_like_os.TerminalDriver.Lines.{append_key, store_key-append_key}

-- A scan code of a key that has a character.
pub record IsPlain (input : ℕ) : Type 0 where
  pub in_table : input < 58
  pub no_ctrl : input ≢ 0x1D
  pub no_left_shift : input ≢ 0x2A
  pub no_right_shift : input ≢ 0x36
  pub no_alt : input ≢ 0x38
  pub no_caps : input ≢ 0x3A
  pub no_backspace : input ≢ 0x0E

pub handle_input-plain :
    (input : ℕ) (k : Kernel) → IsPlain input → handle_input input k ≡ press_key (key_of input k) k
unfolding handle_input
handle_input-plain input k p = ground (
  arith, p.in_table, p.no_ctrl, p.no_left_shift, p.no_right_shift, p.no_alt, p.no_caps,
  p.no_backspace,
)

-- The terminal that is shown, after the handler has printed a key.
pub shown_moves :
    (c : ℕ) (k : Kernel)
    → (x y : ℕ) × ((current_terminal_putc c k).terminals k.current_terminal
        ≡ move x y (k.terminals k.current_terminal))
unfolding current_terminal_putc set_cursor_position
shown_moves c k =
    let u = (emit (physical k video_mem_direct) c (k.terminals k.current_terminal, k.memory)).0 in
    (
      u.screen_x,
      u.screen_y,
      rw (same_self k.current_terminal) (
          emit-OnlyMoves (physical k video_mem_direct) c (k.terminals k.current_terminal) k.memory),
    )

-- A line is being typed at the terminal that is shown and scheduled: its characters so far, and
-- whether the reader still waits for more; `o` is the terminal's `overflow`.
pub record Typing (o : ℕ) (line : List ℕ) (waits : ℕ) (k : Kernel) : Type 0 where
  pub scheduled : k.active_terminal ≡ k.current_terminal
  pub no_control : k.ctrl_pressed ≡ 0
  pub enabled : (k.terminals k.current_terminal).keyboard_buffer_enable ≡ waits
  pub overflows : (k.terminals k.current_terminal).overflow ≡ o
  pub counts : (k.terminals k.current_terminal).keyboard_buffer_size ≡ length line
  pub buffer : length (k.terminals k.current_terminal).key_buf ≡ 128
  pub typed : take (length line) (k.terminals k.current_terminal).key_buf ≡ line

no_clear : (key : ℕ) (k : Kernel) → k.ctrl_pressed ≡ 0 → is_clear_key key k ≡ false
no_clear key k e = ground arith

pub shown_keeps :
    (c : ℕ) (k : Kernel)
    → ((current_terminal_putc c k).current_terminal ≡ k.current_terminal)
      × ((current_terminal_putc c k).active_terminal ≡ k.active_terminal)
      × ((current_terminal_putc c k).ctrl_pressed ≡ k.ctrl_pressed)
      × ((input : ℕ) → key_of input (current_terminal_putc c k) ≡ key_of input k)
unfolding current_terminal_putc set_cursor_position key_of
shown_keeps c k = (refl, refl, refl, λ input. refl)

-- With a reader that waits and room, a printed key is appended to the line.
press_key-store :
    (key : ℕ) (k : Kernel)
    → k.ctrl_pressed ≡ 0
    → (k.terminals k.current_terminal).keyboard_buffer_size < 128
    → (k.terminals k.current_terminal).keyboard_buffer_enable ≡ 1
    → (x y : ℕ) × (press_key key k
        ≡ some (
            set_terminal k.current_terminal
              (append_key key (move x y (k.terminals k.current_terminal)))
              (current_terminal_putc key k)))
unfolding press_key
press_key-store key k c room e =
    let (x, y, s) = shown_moves key k in
    let (cur, act, ctrl, keys) = shown_keeps key k in
    (
      x,
      y,
      rw
          (
            no_clear key (current_terminal_putc key k) (ctrl ∙ c),
            cur,
            s,
            store_key-append_key key (move x y (k.terminals k.current_terminal)) room e,
          )
          refl,
    )

pub set_terminal_self :
    (k shown : Kernel) (u : Terminal)
    → shown.current_terminal ≡ k.current_terminal
    → (set_terminal k.current_terminal u shown).terminals shown.current_terminal ≡ u
set_terminal_self k shown u cur = rw (cur, same_self k.current_terminal) refl

appended-typed :
    (key : ℕ) (line buf : List ℕ) (n : ℕ)
    → n ≡ length line
    → length buf ≡ 128
    → length line < 128
    → take (length line) buf ≡ line
    → take (length (line ++ (key ∷ []))) (set buf n key) ≡ line ++ (key ∷ [])
appended-typed key line buf n e b room typed =
    rw (length-snoc line key, e)
      (take-set_next buf (length line) key (omega arith) ∙ ap (λ l. l ++ (key ∷ [])) typed)

appended-Typing :
    {o : ℕ} (key x y : ℕ) (line : List ℕ) (k shown : Kernel)
    → Typing o line 1 k
    → length line < 128
    → shown.current_terminal ≡ k.current_terminal
    → shown.active_terminal ≡ k.active_terminal
    → shown.ctrl_pressed ≡ k.ctrl_pressed
    → Typing o (line ++ (key ∷ [])) (if key == b'\n' then 0 else 1) (
        set_terminal k.current_terminal
          (append_key key (move x y (k.terminals k.current_terminal)))
          shown)
appended-Typing key x y line k shown t room cur act ctrl =
    let old = k.terminals k.current_terminal in
    let here = set_terminal_self k shown (append_key key (move x y old)) cur in
    record {
      scheduled = act ∙ t.scheduled ∙ sym cur;
      no_control = ctrl ∙ t.no_control;
      enabled = ap (λ (u : Terminal). u.keyboard_buffer_enable) here;
      overflows = ap (λ (u : Terminal). u.overflow) here ∙ t.overflows;
      counts =
          ap (λ (u : Terminal). u.keyboard_buffer_size) here
          ∙ grown old.keyboard_buffer_size (length line) t.counts
          ∙ sym (length-snoc line key);
      buffer =
          ap (λ (u : Terminal). length u.key_buf) here
          ∙ length-set old.key_buf old.keyboard_buffer_size key
          ∙ t.buffer;
      typed =
          ap (λ (u : Terminal). take (length (line ++ (key ∷ []))) u.key_buf) here
          ∙ appended-typed key line old.key_buf old.keyboard_buffer_size t.counts t.buffer room
              t.typed;
    }
  where
    grown : (a b : ℕ) → a ≡ b → a + 1 ≡ suc b
    grown a b e = omega arith

-- A key that is pressed while the reader waits.
keyboard_handler-Typing :
    {o : ℕ} (input : ℕ) (line : List ℕ) (k : Kernel)
    → IsPlain input
    → Typing o line 1 k
    → length line < 128
    → (k' : Kernel) × (keyboard_handler input k ≡ some k')
      × Typing o (line ++ (key_of input k ∷ [])) (if key_of input k == b'\n' then 0 else 1) k'
      × ((other : ℕ) → key_of other k' ≡ key_of other k)
unfolding keyboard_handler send_eoi key_of
keyboard_handler-Typing input line k p t room =
    let key = key_of input k in
    let (x, y, e) = press_key-store key k t.no_control (omega (arith, t.counts)) t.enabled in
    let k1 =
      set_terminal k.current_terminal (append_key key (move x y (k.terminals k.current_terminal)))
        (current_terminal_putc key k) in
    let (cur, act, ctrl, keys) = shown_keeps key k in
    let next = appended-Typing key x y line k (current_terminal_putc key k) t room cur act ctrl in
    (
      send_eoi 1 k1,
      rw (handle_input-plain input k p, e) refl,
      record {
        scheduled = next.scheduled;
        no_control = next.no_control;
        enabled = next.enabled;
        overflows = next.overflows;
        counts = next.counts;
        buffer = next.buffer;
        typed = next.typed;
      },
      λ other. keys other,
    )
