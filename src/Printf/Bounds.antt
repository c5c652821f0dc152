-- ===== src/Printf/Bounds.antt =====
-- How many bytes of `conv_buf` the conversions of lib.c's `printf` write.
use mathlib.Core.Option
use light_os_a_linus_like_os.Common.{
  ℕ, suc, ◌+◌, ◌-◌, ◌^◌, ◌<◌, ◌≤◌, ◌≡◌, ◌∙◌, ap, Option, some, u32, leb, ltb, if◌then◌else◌, arith,
  Bool-cases, inl, inr, false, leb→le, refl,
}
use light_os_a_linus_like_os.Memory.{Bytes, update, offset_by}
use light_os_a_linus_like_os.Number.{itoa}
use light_os_a_linus_like_os.Number.Reading.{itoa_lem}
use light_os_a_linus_like_os.Printf.{itoa_at, fill_from, hex, padded_buffer, unsigned, signed}
use light_os_a_linus_like_os.CString.{strlen}
use light_os_a_linus_like_os.Printf.Texts.{numeral-fits, fill_from_lem}

-- The conversion succeeds and writes no byte from index `n` on.
abbrev pub WritesBelow : ℕ → Bytes → Option Bytes → Type 0
WritesBelow n conv_buf o = (s : Bytes) × (o ≡ some s) × ((i : ℕ) → n ≤ i → s i ≡ conv_buf i)

itoa-WritesBelow :
    (radix digits v : ℕ) (buf : Bytes)
    → 2 ≤ radix
    → radix ≤ 36
    → v < u32
    → 0 < digits
    → v < radix ^ digits
    → WritesBelow (suc digits) buf (itoa v buf radix)
itoa-WritesBelow radix digits v buf lo hi fits some_digit lt =
    let (n, s, runs, few, h) = itoa_lem v radix buf lo hi fits in
    let le : n ≤ digits = numeral-fits radix v n digits buf s h (omega arith) some_digit lt in
    (s, runs, λ i ge. h.rest i (omega arith))

itoa_at-WritesBelow :
    (at n v radix : ℕ) (buf : Bytes)
    → WritesBelow n (offset_by at buf) (itoa v (offset_by at buf) radix)
    → WritesBelow (at + n) buf (itoa_at at v buf radix)
itoa_at-WritesBelow at n v radix buf (s, runs, kept) = (
  λ i. if ltb i at then buf i else s (i - at),
  rw runs refl,
  λ i ge.
      let behind : at + (i - at) ≡ i = omega arith in
      rw (not_ltb i (omega arith)) (kept (i - at) (omega arith) ∙ ap buf behind),
)
  where
    not_ltb : (i : ℕ) → at ≤ i → ltb i at ≡ false
    not_ltb i h = ground arith

signed-WritesBelow :
    (v : ℕ) (conv_buf : Bytes) → v < u32 → WritesBelow 12 conv_buf (signed v conv_buf)
unfolding signed
signed-WritesBelow v conv_buf fits = elim (Bool-cases (leb (2 ^ 31) v)) [
  | inl e ↦
      let low : 2 ^ 31 ≤ v = leb→le (2 ^ 31) v e in
      let first = update conv_buf 0 b'-' in
      let (s, runs, kept) = itoa_at-WritesBelow 1 11 (u32 - v) 10 first (
        itoa-WritesBelow 10 10 (u32 - v) (offset_by 1 first) (omega arith) (omega arith)
          (omega arith) (omega arith) (omega arith)) in
      (s, rw e runs, λ i ge. kept i ge ∙ ground arith)
  | inr e ↦
      let (s, runs, kept) =
        itoa-WritesBelow 10 10 v conv_buf (omega arith) (omega arith) fits (omega arith)
          (omega arith) in
      (s, rw e runs, λ i ge. kept i (omega arith))
]

-- The zeros stand in front of index 8.
fill_from-keeps : (n : ℕ) (s : Bytes) (i : ℕ) → 17 ≤ i → fill_from (8 - n) n s i ≡ s i
fill_from-keeps n s i ge = fill_from_lem (8 - n) n s i ∙ ground arith

padded-WritesBelow :
    (v : ℕ) (conv_buf : Bytes)
    → v < u32
    → WritesBelow 17 conv_buf (Option.map (λ r. r.1) (padded_buffer v conv_buf))
unfolding padded_buffer
padded-WritesBelow v conv_buf fits =
    let (s, runs, kept) = itoa_at-WritesBelow 8 9 v 16 conv_buf (
      itoa-WritesBelow 16 8 v (offset_by 8 conv_buf) (omega arith) (omega arith) fits (omega arith)
        fits) in
    let n = strlen (offset_by 8 s) in
    (fill_from (8 - n) n s, rw runs refl, λ i ge. fill_from-keeps n s i ge ∙ kept i ge)

-- The conversions never write behind their arrays of 64, 36 and 36 bytes: `%x` writes at most 9
-- bytes, `%#x` with the zeros that it fills in at most 17, `%u` at most 11 and `%d` at most 12, for every 32-bit argument.
pub conversions_fit :
    (v : ℕ) (conv_buf : Bytes)
    → v < u32
    → WritesBelow 9 conv_buf (hex v conv_buf)
      × WritesBelow 17 conv_buf (Option.map (λ r. r.1) (padded_buffer v conv_buf))
      × WritesBelow 11 conv_buf (unsigned v conv_buf)
      × WritesBelow 12 conv_buf (signed v conv_buf)
unfolding hex unsigned
conversions_fit v conv_buf fits = (
  itoa-WritesBelow 16 8 v conv_buf (omega arith) (omega arith) fits (omega arith) fits,
  padded-WritesBelow v conv_buf fits,
  itoa-WritesBelow 10 10 v conv_buf (omega arith) (omega arith) fits (omega arith) (omega arith),
  signed-WritesBelow v conv_buf fits,
)
