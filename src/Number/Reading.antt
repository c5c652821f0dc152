-- ===== src/Number/Reading.antt =====
-- The string that `itoa` of lib.c makes is read back as the number.
use Prim.Native.Nat.{zero-le}
use native.Mathlib.Decide.{ℕ_discrete}
use light_os_a_linus_like_os.Common.{
  ℕ, zero, suc, ◌+◌, ◌-◌, ◌*◌, ◌≤◌, ◌<◌, ◌≡◌, refl, ◌≢◌, ap, ◌∙◌, some, u32, arith, ==_no,
}
use light_os_a_linus_like_os.Memory.{Bytes, update}
use light_os_a_linus_like_os.CString.Length.{IsLength}
use light_os_a_linus_like_os.CString.Reverse.{strrev}
use light_os_a_linus_like_os.CString.Reverse.Twice.{strrev_twice}
use light_os_a_linus_like_os.Number.{itoa}
use light_os_a_linus_like_os.Number.Digits.{
  digit_value, IsDigit, low_first, IsWritten, digits_from_lem,
}

-- The first `n` digits of `s`, as a person reads them, as a number.
abbrev pub number_of : ℕ → Bytes → ℕ → ℕ
number_of radix s zero = 0
number_of radix s (suc n) = number_of radix s n * radix + digit_value (s n)

-- The digits of `s` from `i` on are those of `r` up to `m`, the other way round.
number_of-reversed :
    (radix n m : ℕ) (r s : Bytes)
    → m ≤ n
    → ((j : ℕ) → j < n → r j ≡ s (n - 1 - j))
    → number_of radix r m ≡ low_first radix s (n - m) m
number_of-reversed radix n zero r s le turned = refl
number_of-reversed radix n (suc m) r s le turned =
    let front : number_of radix r m ≡ low_first radix s (n - m) m =
      number_of-reversed radix n m r s (omega arith) turned in
    let next : suc (n - suc m) ≡ n - m = omega arith in
    let at : r m ≡ s (n - suc m) = turned m (omega arith) ∙ ap s (omega arith) in
    rw (front, next, at) (omega arith)

-- A string of `n` digits that stands for `value`, with `buf` behind it.
pub record IsNumeral (radix value n : ℕ) (buf s : Bytes) : Type 0 where
  pub length : IsLength s n
  pub nonempty : 0 < n
  pub reads : number_of radix s n ≡ value
  pub valid : (i : ℕ) → i < n → IsDigit radix (s i)
  pub leading : 1 < n → digit_value (s 0) ≢ 0
  pub rest : (i : ℕ) → n < i → s i ≡ buf i

written-IsNumeral :
    (radix value n : ℕ) (buf s : Bytes)
    → 0 < value
    → n ≤ 32
    → IsWritten radix value 0 n buf s
    → IsNumeral radix value n buf (strrev s)
written-IsNumeral radix value n buf s positive few w =
    let len : IsLength s n = record {
      ends = ap s (omega arith) ∙ w.ends;
      before = λ i lt. w.digits i zero-le (omega arith);
    } in
    let small : n < u32 = omega arith in
    let inside : (j : ℕ) → j < n → strrev s j ≡ s (n - 1 - j) =
      λ j lt. (strrev_twice s n j len small).0 ∙ ground (arith, lt) in
    let some_digit : 0 < n = w.some_digit positive in
    let first : strrev s 0 ≡ s (n - 1) = inside 0 some_digit ∙ ap s (omega arith) in
    let last : digit_value (s (n - 1)) ≢ 0 =
      λ e. w.top some_digit (ap (λ i. digit_value (s i)) (omega arith) ∙ e) in
    record {
      length = (strrev_twice s n 0 len small).1;
      nonempty = some_digit;
      reads =
          number_of-reversed radix n n (strrev s) s (omega arith) inside
          ∙ ap (λ k. low_first radix s k n) (omega arith)
          ∙ w.value;
      valid = λ i lt. rw (inside i lt) (w.valid (n - 1 - i) zero-le (omega arith));
      leading = λ _. rw first last;
      rest = λ i lt. (strrev_twice s n i len small).0 ∙ ground (arith, lt, w.above i);
    }

zero-IsNumeral :
    (radix : ℕ) (buf : Bytes) → 2 ≤ radix → IsNumeral radix 0 1 buf (update (update buf 0 b'0') 1 0)
zero-IsNumeral radix buf lo = record {
  length = record { ends = refl; before = λ i lt. ground arith };
  nonempty = omega arith;
  reads = omega arith;
  valid = λ i lt. ground arith;
  leading = λ lt. absurd (omega arith);
  rest = λ i lt. ground arith;
}

-- For a radix from 2 to 36, `itoa` returns, and its string reads as the number: it has between 1
-- and 32 digits, no leading zero, the NUL behind them, and every byte of
-- the buffer after that is kept.
pub itoa_lem :
    (value radix : ℕ) (buf : Bytes)
    → 2 ≤ radix
    → radix ≤ 36
    → value < u32
    → (n : ℕ) × (s : Bytes) × (itoa value buf radix ≡ some s)
      × (n ≤ 32)
      × IsNumeral radix value n buf s
unfolding itoa
itoa_lem value radix buf lo hi fits = elim (ℕ_discrete value 0) [
  | yes e ↦ rw e (1, update (update buf 0 b'0') 1 0, refl, omega arith, zero-IsNumeral radix buf lo)
  | no e ↦
      let (n, s, runs, few, w) = digits_from_lem 32 radix value 0 buf lo hi fits in
      (
        n,
        strrev s,
        rw (==_no value 0 e, runs) refl,
        few,
        written-IsNumeral radix value n buf s (omega arith) few w,
      )
]
