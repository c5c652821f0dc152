-- ===== src/Printf/Texts.antt =====
-- The texts that `puts` and the conversions of lib.c's `printf` print, as lists of characters.
use native.Mathlib.Nat.{mul-le-mul_right, pow-suc, pow-zero, pow-le-pow_right, zero-add}
use light_os_a_linus_like_os.Common.{
  some, ℕ, zero, suc, ◌+◌, ◌-◌, ◌*◌, ◌^◌, ◌≤◌, ◌<◌, ◌≡◌, refl, ◌≢◌, ap, ◌∙◌, List, [], ◌∷◌, ◌++◌,
  u32, leb, length, get_or, if◌then◌else◌, arith, ==_yes, ==_no, not_below, ltb→lt, Bool-cases, inl,
  inr, ltb, ◌&&◌,
}
use light_os_a_linus_like_os.Memory.{Bytes, update}
use light_os_a_linus_like_os.CString.Length.{IsLength}
use light_os_a_linus_like_os.Text.{bytes_of}
use light_os_a_linus_like_os.Kernel.{Kernel}
use light_os_a_linus_like_os.Console.{putc, put_all}
use light_os_a_linus_like_os.Number.Digits.{digit_value, IsDigit}
use light_os_a_linus_like_os.Number.Reading.{number_of, IsNumeral}
use light_os_a_linus_like_os.Printf.{puts_from, puts, fill_from}

-- The `n` characters of `s` from `i` on.
abbrev pub slice : Bytes → ℕ → ℕ → List ℕ
slice s i zero = []
slice s i (suc n) = s i ∷ slice s (suc i) n

-- The characters of a string in memory are those of the literal.
slice-cons :
    (c : ℕ) (cs : List ℕ) (i n : ℕ) → slice (bytes_of (c ∷ cs)) (suc i) n ≡ slice (bytes_of cs) i n
slice-cons c cs i zero = refl
slice-cons c cs i (suc n) = ap (λ l. get_or cs i 0 ∷ l) (slice-cons c cs (suc i) n)

pub slice-bytes_of : (cs : List ℕ) → slice (bytes_of cs) 0 (length cs) ≡ cs
slice-bytes_of [] = refl
slice-bytes_of (c ∷ cs) = ap (λ l. c ∷ l) (slice-cons c cs 0 (length cs) ∙ slice-bytes_of cs)

pub length-slice : (s : Bytes) (i n : ℕ) → length (slice s i n) ≡ n
length-slice s i zero = refl
length-slice s i (suc n) = ap suc (length-slice s (suc i) n)

pub get_or-slice : (s : Bytes) (i n j : ℕ) → j < n → get_or (slice s i n) j 0 ≡ s (i + j)
get_or-slice s i zero j lt = absurd (omega arith)
get_or-slice s i (suc n) zero lt = ap s (omega arith)
get_or-slice s i (suc n) (suc j) lt = get_or-slice s (suc i) n j (omega arith) ∙ ap s (omega arith)

-- The number that a list of digits stands for, with `acc` in front of it.
abbrev pub value_of : ℕ → ℕ → List ℕ → ℕ
value_of radix acc [] = acc
value_of radix acc (c ∷ cs) = value_of radix (acc * radix + digit_value c) cs

pub value_of-slice :
    (radix : ℕ) (s : Bytes) (i n : ℕ)
    → value_of radix (number_of radix s i) (slice s i n) ≡ number_of radix s (i + n)
value_of-slice radix s i zero = ap (number_of radix s) (omega arith)
value_of-slice radix s i (suc n) =
    value_of-slice radix s (suc i) n ∙ ap (number_of radix s) (omega arith)

-- `cs` is the usual numeral of `v`: digits only, at least one, and no leading zero.
pub record IsNumber (radix v : ℕ) (cs : List ℕ) : Type 0 where
  pub value : value_of radix 0 cs ≡ v
  pub digits : (j : ℕ) → j < length cs → IsDigit radix (get_or cs j 0)
  pub nonempty : 0 < length cs
  pub leading : 1 < length cs → digit_value (get_or cs 0 0) ≢ 0

pub numeral-IsNumber :
    (radix v n : ℕ) (buf s : Bytes) → IsNumeral radix v n buf s → IsNumber radix v (slice s 0 n)
numeral-IsNumber radix v n buf s h =
    let first : get_or (slice s 0 n) 0 0 ≡ s 0 = get_or-slice s 0 n 0 h.nonempty in
    record {
      value = value_of-slice radix s 0 n ∙ ap (number_of radix s) (zero-add n) ∙ h.reads;
      digits = λ j lt.
          let inside : j < n = rw (length-slice s 0 n) at lt in
          rw (get_or-slice s 0 n j inside, zero-add j) (h.valid j inside);
      nonempty = rw (length-slice s 0 n) h.nonempty;
      leading = λ p. rw first (h.leading (rw (length-slice s 0 n) at p));
    }

-- `puts` prints the characters before the NUL, and counts them.
puts_from_lem :
    (fuel n m : ℕ) (s : Bytes) (i : ℕ) (k : Kernel)
    → IsLength s m
    → i + n ≡ m
    → n < fuel
    → puts_from fuel s i k ≡ some (m, put_all (slice s i n) k)
unfolding puts_from put_all
puts_from_lem zero n m s i k h e lt = absurd (omega arith)
puts_from_lem (suc fuel) zero m s i k h e lt =
    let here : i ≡ m = omega arith in rw (here, ==_yes (s m) 0 h.ends) refl
puts_from_lem (suc fuel) (suc n) m s i k h e lt =
    rw (==_no (s i) 0 (h.before i (omega arith)))
      (puts_from_lem fuel n m s (suc i) (putc (s i) k) h (omega arith) (omega arith))

pub puts_lem :
    (s : Bytes) (n : ℕ) (k : Kernel)
    → IsLength s n
    → n < u32
    → puts s k ≡ some (n, put_all (slice s 0 n) k)
unfolding puts
puts_lem s n k h lt = puts_from_lem u32 n n s 0 k h (omega arith) lt

pub put_all-++ : (a b : List ℕ) (k : Kernel) → put_all (a ++ b) k ≡ put_all b (put_all a k)
unfolding put_all
put_all-++ [] b k = refl
put_all-++ (c ∷ a) b k = put_all-++ a b (putc c k)

-- A numeral without a leading zero has no more digits than its number has.
power-le_value :
    (radix : ℕ) (s : Bytes) (m : ℕ) → digit_value (s 0) ≢ 0 → radix ^ m ≤ number_of radix s (suc m)
power-le_value radix s zero ne = rw (pow-zero radix) (grind arith)
power-le_value radix s (suc m) ne =
    let before : radix ^ m * radix ≤ number_of radix s (suc m) * radix =
      mul-le-mul_right radix (power-le_value radix s m ne) in
    let split : radix ^ suc m ≡ radix ^ m * radix = pow-suc radix m in rw split (omega arith)

-- A power of the radix above the number bounds the digits.
pub numeral-fits :
    (radix v n d : ℕ) (buf s : Bytes)
    → IsNumeral radix v n buf s
    → 0 < radix
    → 0 < d
    → v < radix ^ d
    → n ≤ d
numeral-fits radix v n d buf s h lo some_digit lt = elim (Bool-cases (ltb d n)) [
  | inl e ↦
      let many : d < n = ltb→lt d n e in
      let most : radix ^ d ≤ radix ^ (n - 1) = pow-le-pow_right lo (omega arith) in
      let least : radix ^ (n - 1) ≤ number_of radix s (suc (n - 1)) =
        power-le_value radix s (n - 1) (h.leading (omega arith)) in
      let all : number_of radix s (suc (n - 1)) ≡ v =
        ap (number_of radix s) (sub-suc n h.nonempty) ∙ h.reads in
      absurd (omega arith)
  | inr e ↦ not_below d n e
]
  where
    sub-suc : (n : ℕ) → 0 < n → suc (n - 1) ≡ n
    sub-suc n h = omega arith

-- The zeros that `%#x` fills in.
pub fill_from_lem :
    (rounds i : ℕ) (s : Bytes) (j : ℕ)
    → fill_from rounds i s j ≡ (if leb i j && ltb j (i + rounds) then b'0' else s j)
unfolding fill_from
fill_from_lem zero i s j = ground arith
fill_from_lem (suc rounds) i s j = ground (arith, fill_from_lem rounds (suc i) (update s i b'0') j)
