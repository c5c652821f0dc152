-- ===== src/CString/Reverse/Twice.antt =====
-- `strrev` of lib.c turns a string round.
use native.Mathlib.Nat.{le_refl}
use native.Mathlib.Decide.{ℕ_discrete}
use light_os_a_linus_like_os.Common.{
  ℕ, zero, suc, ◌+◌, ◌-◌, ◌<◌, ◌≤◌, ◌≡◌, refl, ◌≢◌, ap, sym, ◌∙◌, u32, ltb, leb, tests, ltb→lt,
  Bool-cases, not_below, inl, inr, true, false, ◌&&◌, if◌then◌else◌, arith,
}
use light_os_a_linus_like_os.Memory.{Bytes, update}
use light_os_a_linus_like_os.CString.{strlen}
use light_os_a_linus_like_os.CString.Length.{IsLength, strlen-IsLength}
use light_os_a_linus_like_os.CString.Reverse.{reverse_from, strrev}

-- What is to stand at `j` when the characters from `beg` to `end` are turned round.
abbrev turned : ℕ → ℕ → Bytes → ℕ → ℕ
turned beg end s j = if leb beg j && leb j end then s (beg + end - j) else s j

abbrev swapped : ℕ → ℕ → Bytes → Bytes
swapped beg end s = update (update s end (s beg)) beg (s end)

swapped_other : (beg end i : ℕ) (s : Bytes) → i ≢ beg → i ≢ end → swapped beg end s i ≡ s i
swapped_other beg end i s a b = ground (arith, a, b)

swapped_first : (beg end : ℕ) (s : Bytes) → swapped beg end s beg ≡ s end
swapped_first beg end s = ground arith

swapped_last : (beg end : ℕ) (s : Bytes) → beg ≢ end → swapped beg end s end ≡ s beg
swapped_last beg end s a = ground (arith, a)

-- At the two ends, between them and outside.
le→leb : (a b : ℕ) → a ≤ b → leb a b ≡ true
le→leb a b h = ground arith

lt→leb : (a b : ℕ) → b < a → leb a b ≡ false
lt→leb a b h = ground arith

turned_in :
    (beg end : ℕ) (s : Bytes) (j : ℕ) → beg ≤ j → j ≤ end → turned beg end s j ≡ s (beg + end - j)
turned_in beg end s j a b = rw (le→leb beg j a, le→leb j end b) refl

turned_below : (beg end : ℕ) (s : Bytes) (j : ℕ) → j < beg → turned beg end s j ≡ s j
turned_below beg end s j a = rw (lt→leb beg j a) refl

turned_above : (beg end : ℕ) (s : Bytes) (j : ℕ) → end < j → turned beg end s j ≡ s j
turned_above beg end s j a = ground (arith, a)

same_end : (beg end : ℕ) (s : Bytes) (j : ℕ) → ltb beg end ≡ false → s j ≡ turned beg end s j
same_end beg end s j e = ground arith

turned_step_in :
    (beg end : ℕ) (s : Bytes) (j : ℕ)
    → beg < end
    → beg ≤ j
    → j ≤ end
    → turned (suc beg) (end - 1) (swapped beg end s) j ≡ turned beg end s j
turned_step_in beg end s j h lo hi =
    let after = swapped beg end s in
    elim (ℕ_discrete j beg) [
      | yes q ↦ rw q (
          turned_below (suc beg) (end - 1) after beg (omega arith)
          ∙ swapped_first beg end s
          ∙ ap s (omega arith)
          ∙ sym (turned_in beg end s beg (omega arith) (omega arith)))
      | no q ↦ elim (ℕ_discrete j end) [
        | yes r ↦ rw r (
            turned_above (suc beg) (end - 1) after end (omega arith)
            ∙ swapped_last beg end s (omega arith)
            ∙ ap s (omega arith)
            ∙ sym (turned_in beg end s end (omega arith) (omega arith)))
        | no r ↦
            turned_in (suc beg) (end - 1) after j (omega arith) (omega arith)
            ∙ swapped_other beg end (suc beg + (end - 1) - j) s (omega arith) (omega arith)
            ∙ ap s (omega arith)
            ∙ sym (turned_in beg end s j lo hi)
      ]
    ]

turned_step :
    (beg end : ℕ) (s : Bytes) (j : ℕ)
    → beg < end
    → turned (suc beg) (end - 1) (swapped beg end s) j ≡ turned beg end s j
turned_step beg end s j h = elim (Bool-cases (ltb j beg)) [
  | inl e ↦
      turned_below (suc beg) (end - 1) (swapped beg end s) j (omega tests)
      ∙ swapped_other beg end j s (omega tests) (omega tests)
      ∙ sym (turned_below beg end s j (omega tests))
  | inr e ↦ elim (Bool-cases (ltb end j)) [
    | inl f ↦
        turned_above (suc beg) (end - 1) (swapped beg end s) j (omega tests)
        ∙ swapped_other beg end j s (omega tests) (omega tests)
        ∙ sym (turned_above beg end s j (omega tests))
    | inr f ↦ turned_step_in beg end s j h (not_below j beg e) (not_below end j f)
  ]
]

reverse_from_lem :
    (rounds beg end : ℕ) (s : Bytes) (j : ℕ)
    → end < beg + rounds + rounds
    → reverse_from rounds beg end s j ≡ turned beg end s j
unfolding reverse_from
reverse_from_lem zero beg end s j h = ground arith
reverse_from_lem (suc rounds) beg end s j h = elim (Bool-cases (ltb beg end)) [
  | inl e ↦ rw e (
      reverse_from_lem rounds (suc beg) (end - 1) (swapped beg end s) j (omega arith)
      ∙ turned_step beg end s j (ltb→lt beg end e))
  | inr e ↦ rw e (same_end beg end s j e)
]

turned_all :
    (n : ℕ) (s : Bytes) (j : ℕ)
    → 0 < n
    → turned 0 (n - 1) s j ≡ (if ltb j n then s (n - 1 - j) else s j)
turned_all n s j h = ground (arith, h)

empty : (s : Bytes) (j : ℕ) → s j ≡ (if ltb j 0 then s (0 - 1 - j) else s j)
empty s j = ground arith

strrev_lem :
    (s : Bytes) (n j : ℕ)
    → IsLength s n
    → n < u32
    → strrev s j ≡ (if ltb j n then s (n - 1 - j) else s j)
unfolding strrev reverse_from
strrev_lem s zero j h small = rw (strlen-IsLength s 0 h small) (empty s j)
strrev_lem s (suc n) j h small =
    let len : strlen s ≡ suc n = strlen-IsLength s (suc n) h small in
    ap (λ l. reverse_from l 0 (l - 1) s j) len
    ∙ reverse_from_lem (suc n) 0 (suc n - 1) s j (omega arith)
    ∙ turned_all (suc n) s j (omega arith)

reversed_in :
    (n : ℕ) (s : Bytes) (j : ℕ) → j < n → (if ltb j n then s (n - 1 - j) else s j) ≡ s (n - 1 - j)
reversed_in n s j h = ground (arith, h)

reversed_out : (n : ℕ) (s : Bytes) (j : ℕ) → n ≤ j → (if ltb j n then s (n - 1 - j) else s j) ≡ s j
reversed_out n s j h = ground (arith, h)

strrev-IsLength : (s : Bytes) (n : ℕ) → IsLength s n → n < u32 → IsLength (strrev s) n
strrev-IsLength s n h small = record {
  ends = strrev_lem s n n h small ∙ reversed_out n s n (le_refl n) ∙ h.ends;
  before = λ i lt e.
      h.before (n - 1 - i) (omega arith)
        (sym (strrev_lem s n i h small ∙ reversed_in n s i lt) ∙ e);
}

-- `strrev` turns the characters of a string round and leaves every byte behind them, the NUL
-- included; the result has the same length, and turning it round again brings every byte back.
pub strrev_twice :
    (s : Bytes) (n j : ℕ)
    → IsLength s n
    → n < u32
    → (strrev s j ≡ (if ltb j n then s (n - 1 - j) else s j))
      × IsLength (strrev s) n
      × (strrev (strrev s) j ≡ s j)
strrev_twice s n j h small =
    let again = strrev_lem (strrev s) n j (strrev-IsLength s n h small) small in
    (
      strrev_lem s n j h small,
      strrev-IsLength s n h small,
      elim (Bool-cases (ltb j n)) [
        | inl e ↦
            again
            ∙ reversed_in n (strrev s) j (ltb→lt j n e)
            ∙ strrev_lem s n (n - 1 - j) h small
            ∙ reversed_in n s (n - 1 - j) (omega tests)
            ∙ ap s (omega tests)
        | inr e ↦
            again
            ∙ reversed_out n (strrev s) j (not_below j n e)
            ∙ strrev_lem s n j h small
            ∙ reversed_out n s j (not_below j n e)
      ],
    )
