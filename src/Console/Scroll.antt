-- ===== src/Console/Scroll.antt =====
-- The scrolling loops, pointwise.
use light_os_a_linus_like_os.Common.{
  ℕ, zero, suc, ◌+◌, ◌-◌, ◌*◌, ◌%◌, ◌≡◌, ◌∙◌, ◌&&◌, ltb, leb, ◌==◌, if◌then◌else◌, arith,
}
use light_os_a_linus_like_os.Memory.{Bytes, update}
use light_os_a_linus_like_os.Console.{attrib, blank_cell, blank_from, move_from, scroll}

blank_from_lem :
    (base rounds index : ℕ) (m : Bytes) (a : ℕ)
    → blank_from base rounds index m a ≡ (
        if leb (base + index * 2) a && ltb a (base + (index + rounds) * 2)
        then (if (a - base) % 2 == 0 then b' ' else attrib)
        else m a)
unfolding blank_from
blank_from_lem base zero index m a = ground arith
blank_from_lem base (suc rounds) index m a =
    ground (arith, blank_from_lem base rounds (suc index) (blank_cell base index m) a)

move_from_lem :
    (base rounds index : ℕ) (m : Bytes) (a : ℕ)
    → move_from base rounds index m a ≡ (
        if leb (base + index * 2) a && ltb a (base + (index + rounds) * 2)
        then m (a + 160)
        else m a)
unfolding move_from
move_from_lem base zero index m a = ground arith
move_from_lem base (suc rounds) index m a =
    let m' = update m (base + index * 2) (m (base + (index + 80) * 2)) in
    let m'' = update m' (base + index * 2 + 1) (m' (base + (index + 80) * 2 + 1)) in
    ground (arith, move_from_lem base rounds (suc index) m'' a)

-- The cases of the two loops, put together.
join :
    (base kept below a moved : ℕ)
    → moved ≡ (if leb (base + 0 * 2) a && ltb a (base + (0 + 1920) * 2) then below else kept)
    → (if leb (base + 1920 * 2) a && ltb a (base + (1920 + 80) * 2)
        then (if (a - base) % 2 == 0 then b' ' else attrib)
        else moved)
      ≡ (if leb base a && ltb a (base + 3840)
          then below
          else if leb base a && ltb a (base + 4000)
          then (if (a - base) % 2 == 0 then b' ' else attrib)
          else kept)
join base kept below a moved e = rw e (ground arith)

-- Scrolling the screen at `base`: every byte of the first 24 rows is the one that stood a row
-- below, the last row is blank, and nothing outside the 4000 bytes of the screen changes.
pub scroll_lem :
    (base : ℕ) (m : Bytes) (a : ℕ)
    → scroll base m a ≡ (
        if leb base a && ltb a (base + 3840)
        then m (a + 160)
        else if leb base a && ltb a (base + 4000)
        then (if (a - base) % 2 == 0 then b' ' else attrib)
        else m a)
unfolding scroll
scroll_lem base m a =
    blank_from_lem base 80 1920 (move_from base 1920 0 m) a
    ∙ join base (m a) (m (a + 160)) a (move_from base 1920 0 m a) (move_from_lem base 1920 0 m a)
