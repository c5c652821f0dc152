-- ===== src/Console/Emit.antt =====
-- What writing and erasing a character do to the cursor and to the bytes of the screen.
use light_os_a_linus_like_os.Common.{
  ℕ, ◌+◌, ◌*◌, ◌≤◌, ◌<◌, ◌≡◌, ◌⊎◌, inl, inr, true, false, leb, ◌==◌, if◌then◌else◌, arith,
  Bool-cases,
}
use light_os_a_linus_like_os.Memory.{Bytes}
use light_os_a_linus_like_os.Kernel.{Terminal}
use light_os_a_linus_like_os.Console.{
  attrib, blank_cell, scroll, full_screen, line_break, put_cell, is_line_break, emit, erase,
}
use light_os_a_linus_like_os.Console.Scroll.{scroll_lem}

-- The cursor is on the screen, or at the start of the row below it, where the next character
-- scrolls.
pub record IsOnScreen (t : Terminal) : Type 0 where
  pub column : t.screen_x < 80
  pub row : t.screen_y ≤ 25
  pub below : t.screen_y ≡ 25 → t.screen_x ≡ 0

-- The addresses that are not in the screen at `base`.
abbrev pub Outside : ℕ → ℕ → Type 0
Outside base a = (a < base) ⊎ (base + 4000 ≤ a)

scroll-Outside : (base : ℕ) (m : Bytes) (a : ℕ) → Outside base a → scroll base m a ≡ m a
scroll-Outside base m a o = ground (arith, scroll_lem base m a)

module _ (base : ℕ) (t : Terminal) (m : Bytes) (on : IsOnScreen t) where
  full_screen-IsOnScreen :
      IsOnScreen (full_screen base (t, m)).0 × ((full_screen base (t, m)).0.screen_y < 25)
  unfolding full_screen
  full_screen-IsOnScreen = ground arith

  full_screen-Outside : (a : ℕ) → Outside base a → (full_screen base (t, m)).1 a ≡ m a
  unfolding full_screen
  full_screen-Outside a o = ground (arith, scroll-Outside base m a)

  line_break-IsOnScreen : t.screen_y < 25 → IsOnScreen (line_break base (t, m)).0
  unfolding line_break
  line_break-IsOnScreen h = ground arith

  line_break-Outside : (a : ℕ) → Outside base a → (line_break base (t, m)).1 a ≡ m a
  unfolding line_break
  line_break-Outside a o = ground (arith, scroll-Outside base m a)

  put_cell-IsOnScreen : (c : ℕ) → t.screen_y < 25 → IsOnScreen (put_cell base c (t, m)).0
  unfolding put_cell
  put_cell-IsOnScreen c h = ground arith

  put_cell-Outside :
      (c a : ℕ) → t.screen_y < 25 → Outside base a → (put_cell base c (t, m)).1 a ≡ m a
  unfolding put_cell
  put_cell-Outside c a h o = ground arith

-- A character, whichever it is, keeps the cursor on the screen.
pub emit-IsOnScreen :
    (base c : ℕ) (t : Terminal) (m : Bytes) → IsOnScreen t → IsOnScreen (emit base c (t, m)).0
unfolding emit
emit-IsOnScreen base c t m on =
    let (t', m') = full_screen base (t, m) in
    let (on', low) = full_screen-IsOnScreen base t m on in
    ground
      (arith, line_break-IsOnScreen base t' m' on' low, put_cell-IsOnScreen base t' m' on' c low)

-- A character changes no byte outside the 4000 of the screen that it is written to.
pub emit-Outside :
    (base c : ℕ) (t : Terminal) (m : Bytes) (a : ℕ)
    → IsOnScreen t
    → Outside base a
    → (emit base c (t, m)).1 a ≡ m a
unfolding emit
emit-Outside base c t m a on o =
    let (t', m') = full_screen base (t, m) in
    let (on', low) = full_screen-IsOnScreen base t m on in
    ground (
      arith,
      full_screen-Outside base t m on a o,
      line_break-Outside base t' m' on' a o,
      put_cell-Outside base t' m' on' c a low o,
    )

-- Where the cursor stands, counted in characters.
abbrev pub position : Terminal → ℕ
position t = 80 * t.screen_y + t.screen_x

-- A printable character appears at the cursor with the attribute 7, the cursor moves on by one,
-- and every other byte keeps its value; if the cursor was below the screen, the screen scrolls
-- first and the character appears at the start of the last row.
pub emit-printable :
    (base c : ℕ) (t : Terminal) (m : Bytes) (a : ℕ)
    → IsOnScreen t
    → is_line_break c ≡ false
    → let (t', m') = emit base c (t, m) in
      let full = leb 2000 (position t) in
      let at = if full then 1920 else position t in
      (position t' ≡ at + 1)
      × (m' a ≡ (
          if a == base + at * 2
          then c
          else if a == base + at * 2 + 1
          then attrib
          else if full
          then scroll base m a
          else m a))
unfolding emit full_screen put_cell
emit-printable base c t m a on h = rw h (elim (Bool-cases (leb 2000 (position t))) [
  | inl e ↦ rw e (ground arith, ground arith)
  | inr e ↦ rw e (ground arith, ground arith)
])

full_screen-low :
    (base : ℕ) (t : Terminal) (m : Bytes)
    → IsOnScreen t
    → t.screen_y < 25
    → full_screen base (t, m) ≡ (t, m)
unfolding full_screen
full_screen-low base t m on low = let e : leb 2000 (position t) ≡ false = ground arith in rw e

erase-put_cell_last :
    (base c : ℕ) (t : Terminal) (m : Bytes) (a : ℕ)
    → IsOnScreen t
    → leb 80 (t.screen_x + 1) ≡ true
    → let (t', m') = erase base (put_cell base c (t, m)) in
      (t' ≡ t) × (m' a ≡ blank_cell base (position t) m a)
unfolding erase put_cell
erase-put_cell_last base c t m a on e =
    let f : (t.screen_y + 1 == 0) ≡ false = ground arith in rw (e, f) (ground arith, ground arith)

erase-put_cell_inner :
    (base c : ℕ) (t : Terminal) (m : Bytes) (a : ℕ)
    → leb 80 (t.screen_x + 1) ≡ false
    → let (t', m') = erase base (put_cell base c (t, m)) in
      (t' ≡ t) × (m' a ≡ blank_cell base (position t) m a)
unfolding erase put_cell
erase-put_cell_inner base c t m a e =
    let f : (t.screen_x + 1 == 0) ≡ false = ground arith in rw (e, f) (ground arith, ground arith)

-- Erasing undoes a printable character that did not scroll: the cursor is back, the cell is
-- blank, and every other byte is as it was before the character.
pub erase-emit :
    (base c : ℕ) (t : Terminal) (m : Bytes) (a : ℕ)
    → IsOnScreen t
    → t.screen_y < 25
    → is_line_break c ≡ false
    → let (t', m') = erase base (emit base c (t, m)) in
      (t' ≡ t) × (m' a ≡ blank_cell base (position t) m a)
unfolding emit
erase-emit base c t m a on low h =
    rw (h, full_screen-low base t m on low)
      (elim (Bool-cases (leb 80 (t.screen_x + 1))) [
        | inl e ↦ erase-put_cell_last base c t m a on e
        | inr e ↦ erase-put_cell_inner base c t m a e
      ])

pub erase-IsOnScreen :
    (base : ℕ) (t : Terminal) (m : Bytes) → IsOnScreen t → IsOnScreen (erase base (t, m)).0
unfolding erase
erase-IsOnScreen base t m on = ground arith
