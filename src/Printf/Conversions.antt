-- ===== src/Printf/Conversions.antt =====
-- The number conversions of lib.c's `printf`: what each hands to `puts`.
use native.Mathlib.Nat.{zero-add}
use light_os_a_linus_like_os.Common.{
  ℕ, zero, suc, ◌+◌, ◌-◌, ◌^◌, ◌≤◌, ◌<◌, ◌≡◌, refl, ap, ◌∙◌, Option, some, List, ◌∷◌, u32, leb, ltb,
  length, get_or, if◌then◌else◌, arith, Bool-cases, inl, inr, not_below, ltb→lt, leb→le,
}
use light_os_a_linus_like_os.Memory.{Bytes, update, offset_by}
use light_os_a_linus_like_os.CString.{strlen}
use light_os_a_linus_like_os.CString.Length.{IsLength, strlen-IsLength}
use light_os_a_linus_like_os.Number.{itoa}
use light_os_a_linus_like_os.Number.Digits.{IsDigit}
use light_os_a_linus_like_os.Number.Reading.{number_of, IsNumeral, itoa_lem}
use light_os_a_linus_like_os.Printf.{
  padded_buffer, itoa_at, hex, padded_hex, unsigned, signed, fill_from,
}
use light_os_a_linus_like_os.Printf.Texts.{
  IsNumber, numeral-IsNumber, numeral-fits, value_of, value_of-slice, slice, get_or-slice,
  fill_from_lem,
}

-- A conversion leaves a string whose characters are as they should be.
abbrev pub Gives : Option Bytes → (List ℕ → Type 0) → Type 0
Gives o P = (s : Bytes) × (n : ℕ) × (o ≡ some s) × IsLength s n × (n < u32) × P (slice s 0 n)

itoa-Gives :
    (radix v : ℕ) (buf : Bytes)
    → 2 ≤ radix
    → radix ≤ 36
    → v < u32
    → Gives (itoa v buf radix) (IsNumber radix v)
itoa-Gives radix v buf lo hi fits =
    let (n, s, runs, few, h) = itoa_lem v radix buf lo hi fits in
    (s, n, runs, h.length, omega arith, numeral-IsNumber radix v n buf s h)

pub hex-Gives : (v : ℕ) (buf : Bytes) → v < u32 → Gives (hex v buf) (IsNumber 16 v)
unfolding hex
hex-Gives v buf = itoa-Gives 16 v buf (omega arith) (omega arith)

pub unsigned-Gives : (v : ℕ) (buf : Bytes) → v < u32 → Gives (unsigned v buf) (IsNumber 10 v)
unfolding unsigned
unsigned-Gives v buf = itoa-Gives 10 v buf (omega arith) (omega arith)

-- A string that stands one byte further on.
slice-shift :
    (s' s : Bytes) (i n : ℕ) → ((j : ℕ) → s' (suc j) ≡ s j) → slice s' (suc i) n ≡ slice s i n
slice-shift s' s i zero h = refl
slice-shift s' s i (suc n) h = rw (h i, slice-shift s' s (suc i) n h) refl

abbrev pub IsSigned : ℕ → List ℕ → Type 0
IsSigned v t =
    (v < 2 ^ 31 → IsNumber 10 v t)
    × (2 ^ 31 ≤ v → (t' : List ℕ) × (t ≡ b'-' ∷ t') × IsNumber 10 (2 ^ 32 - v) t')

negative-Gives :
    (v : ℕ) (buf : Bytes)
    → 2 ^ 31 ≤ v
    → v < u32
    → Gives (itoa_at 1 (u32 - v) (update buf 0 b'-') 10) (IsSigned v)
negative-Gives v buf low fits =
    let first = update buf 0 b'-' in
    let (n, s, runs, few, h) =
      itoa_lem (u32 - v) 10 (offset_by 1 first) (omega arith) (omega arith) (omega arith) in
    let after = λ (i : ℕ). if ltb i 1 then first i else s (i - 1) in
    let behind : (j : ℕ) → after (suc j) ≡ s j = λ j. ground arith in
    (
      after,
      suc n,
      rw runs refl,
      record {
        ends = behind n ∙ h.length.ends;
        before = λ i lt. ground (arith, h.length.before (i - 1));
      },
      omega arith,
      (
        λ lt. absurd (omega arith),
        λ _. (
          slice s 0 n,
          ap (λ l. b'-' ∷ l) (slice-shift after s 0 n behind),
          numeral-IsNumber 10 (u32 - v) n (offset_by 1 first) s h,
        ),
      ),
    )

pub signed-Gives : (v : ℕ) (buf : Bytes) → v < u32 → Gives (signed v buf) (IsSigned v)
unfolding signed
signed-Gives v buf fits = elim (Bool-cases (leb (2 ^ 31) v)) [
  | inl e ↦ rw e (negative-Gives v buf (leb→le (2 ^ 31) v e) fits)
  | inr e ↦
      let (s, n, runs, len, few, num) = itoa-Gives 10 v buf (omega arith) (omega arith) fits in
      let small : v < 2 ^ 31 = ground arith in
      (s, n, rw e runs, len, few, (λ _. num, λ low. absurd (omega arith)))
]

-- Zeros in front of a numeral do not change what it reads as.
zeros_read :
    (radix : ℕ) (r : Bytes) (m : ℕ) → ((j : ℕ) → j < m → r j ≡ b'0') → number_of radix r m ≡ 0
zeros_read radix r zero h = refl
zeros_read radix r (suc m) h =
    rw (h m (omega arith), zeros_read radix r m (λ j lt. h j (omega arith))) (omega arith)

padded_reads :
    (radix z m : ℕ) (r s : Bytes)
    → ((j : ℕ) → j < z → r j ≡ b'0')
    → ((j : ℕ) → r (z + j) ≡ s j)
    → number_of radix r (z + m) ≡ number_of radix s m
padded_reads radix z zero r s zeros same =
    ap (number_of radix r) (omega arith) ∙ zeros_read radix r z zeros
padded_reads radix z (suc m) r s zeros same =
    let next : z + suc m ≡ suc (z + m) = omega arith in
    rw (next, padded_reads radix z m r s zeros same, same m) refl

abbrev pub IsPadded : ℕ → List ℕ → Type 0
IsPadded v t =
    (length t ≡ 8) × (value_of 16 0 t ≡ v) × ((j : ℕ) → j < 8 → IsDigit 16 (get_or t j 0))

module _ (v n : ℕ) (buf s r : Bytes) (h : IsNumeral 16 v n buf s) (few : n ≤ 8)
    (zeros : (j : ℕ) → j < 8 - n → r j ≡ b'0') (same : (j : ℕ) → r (8 - n + j) ≡ s j) where
  padded_behind : (j : ℕ) → 8 - n ≤ j → r j ≡ s (j - (8 - n))
  padded_behind j le = ap r (omega arith) ∙ same (j - (8 - n))

  padded-IsLength : IsLength r 8
  padded-IsLength = record {
    ends = ap r (omega arith) ∙ same n ∙ h.length.ends;
    before = λ i lt. elim (Bool-cases (ltb i (8 - n))) [
      | inl e ↦ rw (zeros i (ltb→lt i (8 - n) e)) (omega arith)
      | inr e ↦
          let le = not_below i (8 - n) e in
          rw (padded_behind i le) (h.length.before (i - (8 - n)) (omega arith))
    ];
  }

  padded-IsDigit : (j : ℕ) → j < 8 → IsDigit 16 (r j)
  padded-IsDigit j lt = elim (Bool-cases (ltb j (8 - n))) [
    | inl e ↦ rw (zeros j (ltb→lt j (8 - n) e)) (omega arith, refl)
    | inr e ↦
        let le = not_below j (8 - n) e in
        rw (padded_behind j le) (h.valid (j - (8 - n)) (omega arith))
  ]

  fill_from-IsPadded : IsPadded v (slice r 0 8)
  fill_from-IsPadded =
      let parts : 0 + 8 ≡ 8 - n + n = omega arith in
      (
        refl,
        value_of-slice 16 r 0 8
            ∙ ap (number_of 16 r) parts
            ∙ padded_reads 16 (8 - n) n r s zeros same
            ∙ h.reads,
        λ j lt. rw (get_or-slice r 0 8 j lt, zero-add j) (padded-IsDigit j lt),
      )

pub padded_hex-Gives : (v : ℕ) (buf : Bytes) → v < u32 → Gives (padded_hex v buf) (IsPadded v)
unfolding padded_hex padded_buffer
padded_hex-Gives v buf fits =
    let (n, s, runs, few, h) = itoa_lem v 16 (offset_by 8 buf) (omega arith) (omega arith) fits in
    let le : n ≤ 8 =
      numeral-fits 16 v n 8 (offset_by 8 buf) s h (omega arith) (omega arith) (omega arith) in
    let whole : Bytes = λ i. if ltb i 8 then buf i else s (i - 8) in
    let tail : (i : ℕ) → whole (8 + i) ≡ s i = λ i. ground arith in
    let len : strlen (offset_by 8 whole) ≡ n =
      strlen-IsLength (offset_by 8 whole) n
        (record {
          ends = tail n ∙ h.length.ends;
          before = λ i lt. rw (tail i) (h.length.before i lt);
        })
        (omega arith) in
    let r : Bytes = offset_by n (fill_from (8 - n) n whole) in
    let zeros : (j : ℕ) → j < 8 - n → r j ≡ b'0' =
      λ j lt. fill_from_lem (8 - n) n whole (n + j) ∙ ground arith in
    let same : (j : ℕ) → r (8 - n + j) ≡ s j =
      λ j. fill_from_lem (8 - n) n whole (n + (8 - n + j)) ∙ ground arith in
    (
      r,
      8,
      rw (runs, len) refl,
      padded-IsLength v n (offset_by 8 buf) s r h le zeros same,
      omega arith,
      fill_from-IsPadded v n (offset_by 8 buf) s r h le zeros same,
    )
