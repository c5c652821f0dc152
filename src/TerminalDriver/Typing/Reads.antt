-- ===== src/TerminalDriver/Typing/Reads.antt =====
-- `terminal_read` of terminal.c returns the line that is typed while it waits.

use mathlib.Core.Path.{subst}
use light_os_a_linus_like_os.Common.{
  ℕ, zero, suc, ◌+◌, ◌-◌, ◌<◌, ◌≡◌, refl, ◌≢◌, min, ap, sym, ◌∙◌, to_int32, some, List, [], ◌∷◌,
  ◌++◌, length, get_or, get_or-take, false, ◌&&◌, ltb, leb, ◌==◌, if◌then◌else◌, Bool-cases, inl,
  inr, arith, ltb→lt, not_below, length-snoc,
}
use light_os_a_linus_like_os.Memory.{Bytes, update}
use light_os_a_linus_like_os.Kernel.{same_self, Terminal, Kernel, set_terminal}
use light_os_a_linus_like_os.Keyboard.{key_of}
use light_os_a_linus_like_os.TerminalDriver.{
  ready, copy_line, finish_copy, finish_read, returned, terminal_read,
}
use light_os_a_linus_like_os.TerminalDriver.Typing.{IsPlain, Typing}
use light_os_a_linus_like_os.TerminalDriver.Typing.Edits.{
  shorten, edit, edited, IsTyped, AllTyped, length-shorten,
}
use light_os_a_linus_like_os.TerminalDriver.Typing.Codes.{edit-plain, edit-silent}
use light_os_a_linus_like_os.TerminalDriver.Typing.Waits.{wait_line-Typing}

nonzero : (n : ℕ) → 0 < n → (n == 0) ≡ false
nonzero n h = ground arith

-- What the copying loop leaves.
copy_line_lem :
    (rounds index n : ℕ) (keys : List ℕ) (buf : Bytes)
    → index + rounds ≡ n
    → 0 < n
    → ((j : ℕ) → j + 1 < n → get_or keys j 0 ≢ b'\n')
    → (out : Bytes) × (copy_line rounds index n keys buf ≡ some (to_int32 n, out))
      × ((j : ℕ)
          → out j ≡ (
              if j + 1 == n
              then b'\n'
              else if leb index j && ltb j n
              then get_or keys j 0
              else buf j))
unfolding copy_line
copy_line_lem zero index n keys buf e h0 h =
    (update buf (n - 1) b'\n', rw (nonzero n h0) refl, λ j. ground arith)
copy_line_lem (suc rounds) index n keys buf e h0 h =
    elim (Bool-cases (get_or keys index 0 == b'\n')) [
      | inl f ↦
          let ends : index + 1 ≡ n = ground (arith, h index) in
          (
            update buf index (get_or keys index 0),
            rw f (ap (λ m. some (to_int32 m, update buf index (get_or keys index 0))) ends),
            λ j. ground (arith, ends),
          )
      | inr f ↦
          let (out, r, at) =
            copy_line_lem rounds (suc index) n keys (update buf index (get_or keys index 0))
              (omega arith) h0 h in
          (out, rw f r, λ j. ground (arith, at j))
    ]

get_or-snoc :
    (line : List ℕ) (c j : ℕ) → j < length line → get_or (line ++ (c ∷ [])) j 0 ≡ get_or line j 0
get_or-snoc [] c j h = elim h [ ]
get_or-snoc (x ∷ xs) c zero h = refl
get_or-snoc (x ∷ xs) c (suc j) h = get_or-snoc xs c j (omega arith)

get_or-snoc_last : (line : List ℕ) (c : ℕ) → get_or (line ++ (c ∷ [])) (length line) 0 ≡ c
get_or-snoc_last [] c = refl
get_or-snoc_last (x ∷ xs) c = get_or-snoc_last xs c

-- No Enter in the line.
abbrev IsOpen : List ℕ → Type 0
IsOpen line = (j : ℕ) → j < length line → get_or line j 0 ≢ b'\n'

edit-IsOpen :
    (keys : ℕ → ℕ) (o : ℕ) (line : List ℕ) (input : ℕ)
    → IsTyped keys o line input
    → IsOpen line
    → IsOpen (edit keys line input)
edit-IsOpen keys o line input (inl (p, ne, room)) is_open =
    subst IsOpen (sym (edit-plain keys line input p)) longer
  where
    longer : IsOpen (line ++ (keys input ∷ []))
    longer j lt q = elim (Bool-cases (ltb j (length line))) [
      | inl e ↦
          let small = ltb→lt j (length line) e in
          is_open j small (sym (get_or-snoc line (keys input) j small) ∙ q)
      | inr e ↦
          let last : length line ≡ j =
            omega (arith, length-snoc line (keys input), not_below j (length line) e) in
          ne (
            sym (get_or-snoc_last line (keys input))
            ∙ ap (λ i. get_or (line ++ (keys input ∷ [])) i 0) last
            ∙ q)
    ]
edit-IsOpen keys o line input (inr (inl (e, z))) is_open =
    subst (λ i. IsOpen (edit keys line i)) (sym e) shorter_IsOpen
  where
    shorter_IsOpen : IsOpen (shorten line)
    shorter_IsOpen j lt q =
        let fewer : j < length line - 1 = omega (arith, length-shorten line) in
        is_open j (omega arith) (sym (get_or-take (length line - 1) line j 0 fewer) ∙ q)
edit-IsOpen keys o line input (inr (inr s)) is_open =
    subst IsOpen (sym (edit-silent keys line input s)) is_open

edited-IsOpen :
    (keys : ℕ → ℕ) (o : ℕ) (line inputs : List ℕ)
    → AllTyped keys o line inputs
    → IsOpen line
    → IsOpen (edited keys line inputs)
edited-IsOpen keys o line [] all is_open = is_open
edited-IsOpen keys o line (input ∷ inputs) (one, all) is_open =
    edited-IsOpen keys o (edit keys line input) inputs all
      (edit-IsOpen keys o line input one is_open)

-- The terminal that is shown is scheduled, and nothing is in its line buffer.
pub record IsIdle (k : Kernel) : Type 0 where
  pub scheduled : k.active_terminal ≡ k.current_terminal
  pub no_control : k.ctrl_pressed ≡ 0
  pub empty : (k.terminals k.current_terminal).keyboard_buffer_size ≡ 0
  pub buffer : length (k.terminals k.current_terminal).key_buf ≡ 128

abbrev wait_on : Kernel → Kernel
wait_on k =
    let t = k.terminals k.active_terminal in
    set_terminal k.active_terminal (record t { keyboard_buffer_enable = 1 }) k

wait_on-Typing :
    (k : Kernel) → IsIdle k → Typing (k.terminals k.current_terminal).overflow [] 1 (wait_on k)
wait_on-Typing k i =
    let old = k.terminals k.current_terminal in
    let here : (wait_on k).terminals k.current_terminal
        ≡ record old { keyboard_buffer_enable = 1 } =
      rw (i.scheduled, same_self k.current_terminal) refl in
    record {
      scheduled = i.scheduled;
      no_control = i.no_control;
      enabled = ap (λ (u : Terminal). u.keyboard_buffer_enable) here;
      overflows = ap (λ (u : Terminal). u.overflow) here;
      counts = ap (λ (u : Terminal). u.keyboard_buffer_size) here ∙ i.empty;
      buffer = ap (λ (u : Terminal). length u.key_buf) here ∙ i.buffer;
      typed = refl;
    }

shorter : (size m n : ℕ) → size ≡ m → (if ltb size n then size else n) ≡ min n m
shorter size m n e = ground arith

buffer-char :
    {o : ℕ} (line : List ℕ) (k : Kernel) (j : ℕ)
    → Typing o (line ++ (b'\n' ∷ [])) 0 k
    → j < length line
    → get_or (k.terminals k.active_terminal).key_buf j 0 ≡ get_or line j 0
buffer-char line k j t h =
    let whole = line ++ (b'\n' ∷ []) in
    ap (λ c. get_or (k.terminals c).key_buf j 0) t.scheduled
    ∙ sym (
        get_or-take (length whole) (k.terminals k.current_terminal).key_buf j 0
          (omega (arith, length-snoc line b'\n')))
    ∙ ap (λ l. get_or l j 0) t.typed
    ∙ get_or-snoc line b'\n' j h

-- What the waiting reader hands over, once the line is there.
finish_read-line :
    {o : ℕ} (line rest : List ℕ) (k : Kernel) (buf : Bytes) (n : ℕ)
    → IsOpen line
    → Typing o (line ++ (b'\n' ∷ [])) 0 k
    → 0 < n
    → let count = min n (length line + 1) in
      (k' : Kernel) × (out : Bytes) × (finish_read buf n (ready k rest)
        ≡ returned k' rest (to_int32 count) (some out))
      × ((j : ℕ)
          → out j
            ≡ (if j + 1 == count then b'\n' else if ltb j count then get_or line j 0 else buf j))
unfolding finish_read finish_copy
finish_read-line line rest k buf n is_open t h =
    let count = min n (length line + 1) in
    let t1 = k.terminals k.active_terminal in
    let size : t1.keyboard_buffer_size ≡ length line + 1 =
      ap (λ c. (k.terminals c).keyboard_buffer_size) t.scheduled
      ∙ t.counts
      ∙ length-snoc line b'\n'
      ∙ omega arith in
    let chars = λ (j : ℕ) (lt : j < length line). buffer-char line k j t lt in
    let (out, e, at) =
      copy_line_lem count 0 count t1.key_buf buf (omega arith) (omega arith)
        (λ j lt q. is_open j (omega arith) (sym (chars j (omega arith)) ∙ q)) in
    (
      set_terminal k.active_terminal (record t1 { keyboard_buffer_size = 0 }) k,
      out,
      rw (shorter t1.keyboard_buffer_size (length line + 1) n size, e) refl,
      λ j. ground (arith, at j, chars j),
    )

-- A reader that waits at the terminal that is shown and scheduled, with an empty line buffer,
-- gets the line that is typed and edited: characters are appended while there is room for them,
-- the backspace key takes the last one away, and the codes of keys that are let go, of which
-- Ctrl, Shift and Alt are none, do nothing. With fewer than 128 characters left at Enter, the
-- call returns there, the scan codes behind it are left, the number returned is that of the
-- characters with the newline, or the number asked for if that is smaller, and the buffer holds
-- the characters, the last one replaced by a newline if the line is cut off, and behind them what
-- it held before. Backspaces need an `overflow` of 0; Ctrl is not held, the line buffer has its
-- 128 bytes, and at least one byte is asked for.
pub terminal_read-line :
    (keys : ℕ → ℕ) (enter : ℕ) (inputs rest : List ℕ) (k : Kernel) (buf : Bytes) (n : ℕ)
    → ((other : ℕ) → key_of other k ≡ keys other)
    → IsPlain enter
    → keys enter ≡ b'\n'
    → AllTyped keys (k.terminals k.current_terminal).overflow [] inputs
    → length (edited keys [] inputs) < 128
    → IsIdle k
    → 0 < n
    → let line = edited keys [] inputs in
      let count = min n (length line + 1) in
      (k' : Kernel) × (out : Bytes) × (terminal_read (some buf) n (inputs ++ (enter ∷ rest)) k
        ≡ returned k' rest (to_int32 count) (some out))
      × ((j : ℕ)
          → out j
            ≡ (if j + 1 == count then b'\n' else if ltb j count then get_or line j 0 else buf j))
unfolding terminal_read key_of
terminal_read-line keys enter inputs rest k buf n same p e all room idle h =
    let o = (k.terminals k.current_terminal).overflow in
    let (k1, w, t) =
      wait_line-Typing keys enter inputs rest [] (wait_on k) same p e all (wait_on-Typing k idle)
        room in
    let is_open = edited-IsOpen keys o [] inputs all (λ j lt. absurd (omega arith)) in
    let (k2, out, r, at) = finish_read-line (edited keys [] inputs) rest k1 buf n is_open t h in
    (k2, out, rw (nonzero n h, w) r, at)
