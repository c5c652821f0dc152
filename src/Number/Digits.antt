-- ===== src/Number/Digits.antt =====
-- The loop of `itoa`: the digits that it writes, the least significant one first.
use native.Mathlib.Nat.{mod-add-div, mod-lt, mul-le-mul_left, div-mul-le_self}
use Prim.Native.Nat.{zero-le}
use native.Mathlib.Decide.{ℕ_discrete}
use light_os_a_linus_like_os.Common.{
  ℕ, zero, suc, ◌+◌, ◌-◌, ◌*◌, ◌/◌, ◌%◌, ◌^◌, ◌≤◌, ◌<◌, ◌≡◌, refl, ◌≢◌, ap, sym, ◌∙◌, some, ltb,
  leb, if◌then◌else◌, arith, Bool-cases, inl, inr, lt→ltb, ==_no,
}
use light_os_a_linus_like_os.Memory.{Bytes, update}
use light_os_a_linus_like_os.Number.{digit, digits_from}

-- The value of a character that stands for a digit.
abbrev pub digit_value : ℕ → ℕ
digit_value c = if leb c b'9' then c - b'0' else c - b'A' + 10

-- `n` digits of `s` from `k` on, the least significant one first, as a number.
abbrev pub low_first : ℕ → Bytes → ℕ → ℕ → ℕ
low_first radix s k zero = 0
low_first radix s k (suc n) = digit_value (s k) + radix * low_first radix s (suc k) n

-- `c` is the character of a digit below the radix.
abbrev pub IsDigit : ℕ → ℕ → Type 0
IsDigit radix c = (digit_value c < radix) × (digit (digit_value c) ≡ some c)

-- A digit's character is not NUL and has the digit's value.
digit-cases : (i : ℕ) → i < 36 → (c : ℕ) × (digit i ≡ some c) × (c ≢ 0) × (digit_value c ≡ i)
digit-cases i h = elim (Bool-cases (ltb i 10)) [
  | inl e ↦ (b'0' + i, rw e refl, omega arith, ground arith)
  | inr e ↦ (b'A' + (i - 10), rw e (ground arith), omega arith, ground arith)
]

-- What the loop leaves from `k` on: `n` digits of `newval`, the NUL, and the rest as it was.
pub record IsWritten (radix newval k n : ℕ) (buf s : Bytes) : Type 0 where
  pub value : low_first radix s k n ≡ newval
  pub ends : s (k + n) ≡ 0
  pub digits : (i : ℕ) → k ≤ i → i < k + n → s i ≢ 0
  pub valid : (i : ℕ) → k ≤ i → i < k + n → IsDigit radix (s i)
  pub below : (i : ℕ) → i < k → s i ≡ buf i
  pub above : (i : ℕ) → k + n < i → s i ≡ buf i
  pub some_digit : 0 < newval → 0 < n
  pub top : 0 < n → digit_value (s (k + n - 1)) ≢ 0

-- A division by the radix takes one bit off at least.
fewer_bits : (fuel radix newval : ℕ) → 2 ≤ radix → newval < 2 ^ suc fuel → newval / radix < 2 ^ fuel
fewer_bits fuel radix newval h lt =
    let q = newval / radix in
    let twice : q * 2 ≤ q * radix = mul-le-mul_left q h in
    let less : q * radix ≤ newval = div-mul-le_self newval radix in omega arith

module _ (radix newval k n c : ℕ) (buf s : Bytes) (ne : c ≢ 0) (of_digit : IsDigit radix c)
    (least : digit_value c ≡ newval % radix) (positive : 0 < newval) where
  -- The last digit that is written is the number that is left for it, which is positive.
  top_digit :
      IsWritten radix (newval / radix) (suc k) n (update buf k c) s
      → s k ≡ c
      → digit_value (s (k + suc n - 1)) ≢ 0
  top_digit w here = elim (ℕ_discrete n 0) [
    | yes e ↦
        let left : newval / radix ≡ 0 = sym w.value ∙ ap (low_first radix s (suc k)) e in
        let whole : newval % radix + radix * (newval / radix) ≡ newval = mod-add-div newval radix in
        let all : newval % radix ≡ newval = sym (rw left (omega arith)) ∙ whole in
        let last : s (k + suc n - 1) ≡ c = ap s (omega arith) ∙ here in
        rw (last, least, all) (omega arith)
    | no e ↦
        let same_place : s (k + suc n - 1) ≡ s (suc k + n - 1) = ap s (omega arith) in
        rw same_place (w.top (omega arith))
  ]

  IsWritten-step :
      IsWritten radix (newval / radix) (suc k) n (update buf k c) s
      → IsWritten radix newval k (suc n) buf s
  IsWritten-step w =
      let here : s k ≡ c = w.below k (omega arith) ∙ ground arith in
      record {
        value = rw (here, least, w.value) (mod-add-div newval radix);
        ends = ap s (omega arith) ∙ w.ends;
        digits = λ i le lt. elim (ℕ_discrete k i) [
          | yes p ↦ rw (← p, here) ne
          | no p ↦ w.digits i (omega arith) (omega arith)
        ];
        valid = λ i le lt. elim (ℕ_discrete k i) [
          | yes p ↦ rw (← p, here) of_digit
          | no p ↦ w.valid i (omega arith) (omega arith)
        ];
        below = λ i lt. w.below i (omega arith) ∙ ground arith;
        above = λ i lt. w.above i (omega arith) ∙ ground arith;
        some_digit = λ _. omega arith;
        top = λ _. top_digit w here;
      }

-- Without a digit left, the loop writes the NUL.
IsWritten-end :
    (radix newval k : ℕ) (buf : Bytes)
    → newval ≡ 0
    → IsWritten radix newval k 0 buf (update buf k 0)
IsWritten-end radix newval k buf e = record {
  value = sym e;
  ends = ground arith;
  digits = λ i le lt. absurd (omega arith);
  valid = λ i le lt. absurd (omega arith);
  below = λ i lt. ground arith;
  above = λ i lt. ground arith;
  some_digit = λ lt. absurd (omega arith);
  top = λ lt. absurd (omega arith);
}

abbrev Written : ℕ → ℕ → ℕ → ℕ → Bytes → Type 0
Written fuel radix newval k buf =
    (n : ℕ) × (s : Bytes) × (digits_from (suc fuel) radix newval k buf ≡ some s)
    × (n ≤ fuel)
    × IsWritten radix newval k n buf s

digits_from-end :
    (fuel radix k newval : ℕ) (buf : Bytes) → newval ≡ 0 → Written fuel radix newval k buf
unfolding digits_from
digits_from-end fuel radix k newval buf e =
    (0, update buf k 0, rw e refl, zero-le, IsWritten-end radix newval k buf e)

digits_from-round :
    (fuel radix newval k c : ℕ) (buf : Bytes)
    → 0 < newval
    → 0 < radix
    → digit (newval % radix) ≡ some c
    → digits_from (suc fuel) radix newval k buf
      ≡ digits_from fuel radix (newval / radix) (suc k) (update buf k c)
unfolding digits_from
digits_from-round fuel radix newval k c buf pos_val pos_radix e =
    rw (lt→ltb 0 newval pos_val, ==_no radix 0 (omega arith), e) refl

-- Enough fuel for the bits of the number gives the digits.
pub digits_from_lem :
    (fuel radix newval k : ℕ) (buf : Bytes)
    → 2 ≤ radix
    → radix ≤ 36
    → newval < 2 ^ fuel
    → Written fuel radix newval k buf
digits_from_lem zero radix newval k buf lo hi lt =
    digits_from-end 0 radix k newval buf (omega arith)
digits_from_lem (suc fuel) radix newval k buf lo hi lt = elim (ℕ_discrete newval 0) [
  | yes e ↦ digits_from-end (suc fuel) radix k newval buf e
  | no e ↦
      let small : newval % radix < radix = mod-lt newval (omega arith) in
      let (c, d, ne, least) = digit-cases (newval % radix) (omega arith) in
      let (n, s, runs, le, w) =
        digits_from_lem fuel radix (newval / radix) (suc k) (update buf k c) lo hi
          (fewer_bits fuel radix newval lo lt) in
      (
        suc n,
        s,
        digits_from-round (suc fuel) radix newval k c buf (omega arith) (omega arith) d ∙ runs,
        omega arith,
        IsWritten-step radix newval k n c buf s ne (rw least (small, d)) least (omega arith) w,
      )
]
