-- ===== src/Console/Fields.antt =====
-- What the console leaves alone: the fields of the terminals, and the other terminals.
use light_os_a_linus_like_os.Common.{ℕ, ◌+◌, ◌*◌, ◌≡◌, ◌∙◌, ap, Bool-cases, inl, inr, leb, ◌==◌}
use light_os_a_linus_like_os.Memory.{Bytes}
use light_os_a_linus_like_os.Kernel.{Terminal}
use light_os_a_linus_like_os.Console.{full_screen, line_break, put_cell, is_line_break, emit, erase}

-- The terminal with its cursor moved.
abbrev pub move : ℕ → ℕ → Terminal → Terminal
move x y t = record t { screen_x = x; screen_y = y }

-- Only the cursor of `t` differs in `u`.
abbrev pub OnlyMoves : Terminal → Terminal → Type 0
OnlyMoves t u = u ≡ move u.screen_x u.screen_y t

full_screen-OnlyMoves :
    (base : ℕ) (t : Terminal) (m : Bytes) → OnlyMoves t (full_screen base (t, m)).0
unfolding full_screen
full_screen-OnlyMoves base t m = elim (Bool-cases (leb 2000 (80 * t.screen_y + t.screen_x))) [
  | inl e ↦ rw e
  | inr e ↦ rw e
]

line_break-OnlyMoves :
    (base : ℕ) (t : Terminal) (m : Bytes) → OnlyMoves t (line_break base (t, m)).0
unfolding line_break
line_break-OnlyMoves base t m = elim (Bool-cases (leb 25 (t.screen_y + 1))) [
  | inl e ↦ rw e
  | inr e ↦ rw e
]

put_cell-OnlyMoves :
    (base c : ℕ) (t : Terminal) (m : Bytes) → OnlyMoves t (put_cell base c (t, m)).0
unfolding put_cell
put_cell-OnlyMoves base c t m = elim (Bool-cases (leb 80 (t.screen_x + 1))) [
  | inl e ↦ rw e
  | inr e ↦ rw e
]

pub OnlyMoves-trans : (t u v : Terminal) → OnlyMoves t u → OnlyMoves u v → OnlyMoves t v
OnlyMoves-trans t u v p q = q ∙ ap (move v.screen_x v.screen_y) p

pub emit-OnlyMoves : (base c : ℕ) (t : Terminal) (m : Bytes) → OnlyMoves t (emit base c (t, m)).0
unfolding emit
emit-OnlyMoves base c t m =
    let (u, m') = full_screen base (t, m) in
    elim (Bool-cases (is_line_break c)) [
      | inl e ↦ rw e (
          OnlyMoves-trans t u (line_break base (u, m')).0 (full_screen-OnlyMoves base t m)
            (line_break-OnlyMoves base u m'))
      | inr e ↦ rw e (
          OnlyMoves-trans t u (put_cell base c (u, m')).0 (full_screen-OnlyMoves base t m)
            (put_cell-OnlyMoves base c u m'))
    ]

pub erase-OnlyMoves : (base : ℕ) (t : Terminal) (m : Bytes) → OnlyMoves t (erase base (t, m)).0
unfolding erase
erase-OnlyMoves base t m = elim (Bool-cases (t.screen_x == 0)) [
  | inl e ↦ elim (Bool-cases (t.screen_y == 0)) [ inl f ↦ rw (e, f) | inr f ↦ rw (e, f) ]
  | inr e ↦ rw e
]
