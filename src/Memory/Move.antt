-- ===== src/Memory/Move.antt =====
-- lib.c's `memmove`: a copy within one memory, upwards or downwards.
use native.Mathlib.Decide.{ℕ_discrete}
use light_os_a_linus_like_os.Common.{
  ℕ, zero, suc, ◌+◌, ◌-◌, ◌<◌, ◌≤◌, ◌≡◌, Bool, true, false, ◌&&◌, ltb, leb, if◌then◌else◌, arith,
  Bool-cases, inl, inr, tests, not_below, leb→le, lt→ltb, ==_yes, ==_no, refl, ◌≢◌, ◌∙◌,
}
use light_os_a_linus_like_os.Memory.Copy.{Bytes, update}

-- `rep movsb` with the direction flag clear, and with it set; `n` is the count register.
unfoldable pub move_up : ℕ → ℕ → ℕ → Bytes → Bytes
move_up zero d s m = m
move_up (suc n) d s m = move_up n (suc d) (suc s) (update m d (m s))

unfoldable pub move_down : ℕ → ℕ → ℕ → Bytes → Bytes
move_down zero d s m = m
move_down (suc n) d s m = move_down n (d - 1) (s - 1) (update m d (m s))

-- The result is the memory and the direction flag, which `std` sets and nothing clears again.
unfoldable pub memmove : ℕ → ℕ → ℕ → Bytes → Bytes × Bool
unfolding move_up move_down
memmove dest src n m =
    if leb dest src
    then (move_up n dest src m, false)
    else (move_down n (dest + n - 1) (src + n - 1) m, true)

move_up_lem :
    (n d s : ℕ) (m : Bytes) (i : ℕ)
    → d ≤ s
    → move_up n d s m i ≡ (if leb d i && ltb i (d + n) then m (s + i - d) else m i)
unfolding move_up
move_up_lem zero d s m i le = ground arith
move_up_lem (suc n) d s m i le = ground (arith, move_up_lem n (suc d) (suc s) (update m d (m s)) i)

-- What the copy downwards has moved, with one byte more.
one_more :
    (n d s : ℕ) (m : Bytes) (i : ℕ)
    → s ≤ d
    → let m' = update m (d + n) (m (s + n)) in
      (if leb d i && ltb i (d + n) then m' (s + i - d) else m' i)
      ≡ (if leb d i && ltb i (d + suc n) then m (s + i - d) else m i)
one_more n d s m i le = elim (Bool-cases (leb d i)) [
  | inl e ↦ rw e (elim (Bool-cases (ltb i (d + n))) [
    | inl f ↦ rw (f, lt→ltb i (d + suc n) (omega tests)) (other (omega tests))
    | inr f ↦ rw f (last (leb→le d i e) (not_below i (d + n) f))
  ])
  | inr e ↦ rw e (below (above d i e))
]
  where
    not_ltb : (a b : ℕ) → b ≤ a → ltb a b ≡ false
    not_ltb a b h = ground arith

    other : i < d + n → update m (d + n) (m (s + n)) (s + i - d) ≡ m (s + i - d)
    other lt = let ne : d + n ≢ s + i - d = omega arith in rw (==_no (d + n) (s + i - d) ne) refl

    last :
        d ≤ i
        → d + n ≤ i
        → update m (d + n) (m (s + n)) i ≡ (if ltb i (d + suc n) then m (s + i - d) else m i)
    last le' ge = elim (ℕ_discrete (d + n) i) [
      | yes q ↦
          let from : s + i - d ≡ s + n = omega arith in
          rw (==_yes (d + n) i q, lt→ltb i (d + suc n) (omega arith), from) refl
      | no q ↦ rw (==_no (d + n) i q, not_ltb i (d + suc n) (omega arith)) refl
    ]

    above : (a b : ℕ) → leb a b ≡ false → b < a
    above a b h = ground arith

    below : i < d → update m (d + n) (m (s + n)) i ≡ m i
    below lt = rw (==_no (d + n) i (omega arith)) refl

-- Here `d` and `s` are the first addresses of the two areas.
move_down_lem :
    (n d s : ℕ) (m : Bytes) (i : ℕ)
    → s ≤ d
    → move_down n (d + n - 1) (s + n - 1) m i
      ≡ (if leb d i && ltb i (d + n) then m (s + i - d) else m i)
unfolding move_down
move_down_lem zero d s m i le = ground arith
move_down_lem (suc n) d s m i le =
    let last : (a : ℕ) → a + suc n - 1 ≡ a + n = λ a. omega arith in
    rw (last d, last s)
      (move_down_lem n d s (update m (d + n) (m (s + n))) i le ∙ one_more n d s m i le)

-- `memmove` leaves in the `n` bytes of the target what the source held before the call, also where
-- the two areas overlap, and keeps every other byte. When the target starts above the source, the
-- direction flag stays set.
pub memmove_lem :
    (dest src n : ℕ) (m : Bytes) (i : ℕ)
    → ((memmove dest src n m).0 i
        ≡ (if leb dest i && ltb i (dest + n) then m (src + i - dest) else m i))
      × ((memmove dest src n m).1 ≡ ltb src dest)
unfolding memmove
memmove_lem dest src n m i = elim (Bool-cases (leb dest src)) [
  | inl e ↦ rw e (move_up_lem n dest src m i (leb→le dest src e), ground arith)
  | inr e ↦ rw e (move_down_lem n dest src m i (ground arith), ground arith)
]
