-- ===== src/Printf/Returns.antt =====
-- lib.c's `printf` returns, whatever its format, if no conversion is cut off at the end.
use Prim.Native.Nat.{zero-le}
use native.Mathlib.Decide.{ℕ_discrete}
use light_os_a_linus_like_os.Common.{
  ℕ, zero, suc, ◌+◌, ◌%◌, ◌<◌, ◌≤◌, ◌≡◌, ◌⊎◌, ◌∙◌, ap, sym, Option, some, List, [], ◌∷◌, ◌++◌, u32,
  ◌==◌, if◌then◌else◌, arith, Bool-cases, inl, inr, Bool, true, false, refl, ==_yes, ==_no, ==_iff,
}
use light_os_a_linus_like_os.Memory.{Bytes}
use light_os_a_linus_like_os.CString.Length.{IsLength}
use light_os_a_linus_like_os.Kernel.{Kernel}
use light_os_a_linus_like_os.Console.{putc, put_all}
use light_os_a_linus_like_os.Printf.{
  hex, padded_hex, unsigned, signed, skip_hashes, put_text, convert, printf_from, printf,
}
use light_os_a_linus_like_os.Printf.Texts.{slice, puts_lem, put_all-++}
use light_os_a_linus_like_os.Printf.Conversions.{
  hex-Gives, padded_hex-Gives, unsigned-Gives, signed-Gives,
}

-- The kernel has changed by printing some characters.
abbrev pub Prints : Kernel → Kernel → Type 0
Prints k k' = (out : List ℕ) × (k' ≡ put_all out k)

-- The string ends in the address space.
abbrev pub HasEnd : Bytes → Type 0
HasEnd s = (n : ℕ) × IsLength s n × (n < u32)

pub Prints-trans : (a b c : Kernel) → Prints a b → Prints b c → Prints a c
Prints-trans a b c (p, e) (q, f) = (p ++ q, f ∙ ap (put_all q) e ∙ sym (put_all-++ p q a))

pub Prints-none : (k : Kernel) → Prints k k
unfolding put_all
Prints-none k = ([], refl)

putc-Prints : (c : ℕ) (k : Kernel) → Prints k (putc c k)
unfolding put_all
putc-Prints c k = (c ∷ [], refl)

module _ (format : Bytes) (args : ℕ → ℕ) (string_at : ℕ → Bytes) (conv_buf : ℕ → Bytes)
    (words : (e : ℕ) → args e < u32) (ends : (p : ℕ) → p < u32 → HasEnd (string_at p)) where
  abbrev Returns : Kernel → Option (ℕ × Kernel) → Type 0
  Returns k o = (n : ℕ) × (k' : Kernel) × (o ≡ some (n, k')) × Prints k k'

  put_text-Returns :
      (esp : ℕ) (k : Kernel) (o : Option Bytes)
      → (s : Bytes) × (o ≡ some s) × HasEnd s
      → Returns k (put_text format args string_at conv_buf esp k o)
  unfolding put_text
  put_text-Returns esp k o (s, e, (n, len, few)) =
      let runs = puts_lem s n k len few in
      (suc esp, put_all (slice s 0 n) k, rw (e, runs) refl, (slice s 0 n, refl))

  if-Returns :
      (b : Bool) (k : Kernel) (o o' : Option (ℕ × Kernel))
      → Returns k o
      → Returns k o'
      → Returns k (if b then o else o')
  if-Returns true k o o' h h' = h
  if-Returns false k o o' h h' = h'

  number-Returns :
      (b : Bool) (esp i : ℕ) (k : Kernel)
      → Returns k (
          put_text format args string_at conv_buf esp k
            (if b then hex (args esp) (conv_buf i) else padded_hex (args esp) (conv_buf i)))
  number-Returns true esp i k =
      let g = hex-Gives (args esp) (conv_buf i) (words esp) in
      put_text-Returns esp k (hex (args esp) (conv_buf i)) (g.0, g.2, (g.1, g.3, g.4))
  number-Returns false esp i k =
      let g = padded_hex-Gives (args esp) (conv_buf i) (words esp) in
      put_text-Returns esp k (padded_hex (args esp) (conv_buf i)) (g.0, g.2, (g.1, g.3, g.4))

  unsigned-Returns :
      (esp i : ℕ) (k : Kernel)
      → Returns k (put_text format args string_at conv_buf esp k (unsigned (args esp) (conv_buf i)))
  unsigned-Returns esp i k =
      let g = unsigned-Gives (args esp) (conv_buf i) (words esp) in
      put_text-Returns esp k (unsigned (args esp) (conv_buf i)) (g.0, g.2, (g.1, g.3, g.4))

  signed-Returns :
      (esp i : ℕ) (k : Kernel)
      → Returns k (put_text format args string_at conv_buf esp k (signed (args esp) (conv_buf i)))
  signed-Returns esp i k =
      let g = signed-Gives (args esp) (conv_buf i) (words esp) in
      put_text-Returns esp k (signed (args esp) (conv_buf i)) (g.0, g.2, (g.1, g.3, g.4))

  convert-Returns :
      (alternate i esp : ℕ) (k : Kernel)
      → Returns k (convert format args string_at conv_buf alternate i esp k)
  unfolding convert
  convert-Returns alternate i esp k =
      let c = format i in
      if-Returns (c == b'%') k _ _ (esp, putc b'%' k, refl, putc-Prints b'%' k)
        (if-Returns (c == b'x') k _ _ (number-Returns (alternate == 0) esp i k) (
          if-Returns (c == b'u') k _ _ (unsigned-Returns esp i k) (
            if-Returns (c == b'd') k _ _ (signed-Returns esp i k) (
              if-Returns (c == b'c') k _ _
                (suc esp, putc (args esp % 256) k, refl, putc-Prints (args esp % 256) k)
                (if-Returns (c == b's') k _ _
                  (put_text-Returns esp k (some (string_at (args esp)))
                    (string_at (args esp), refl, ends (args esp) (words esp)))
                  (esp, k, refl, Prints-none k))))))

  -- No '%' and no '#' stands in front of the NUL.
  abbrev IsClosed : ℕ → Type 0
  IsClosed n = (i : ℕ) → i < n → (format i ≡ b'%') ⊎ (format i ≡ b'#') → suc i < n

  skip-inside :
      (n fuel alternate i : ℕ)
      → IsClosed n
      → i < n
      → let (alternate', j) = skip_hashes format args string_at conv_buf fuel alternate i in
        (i ≤ j) × (j < n)
  unfolding skip_hashes
  skip-inside n zero alternate i h lt = (omega arith, lt)
  skip-inside n (suc fuel) alternate i h lt = elim (Bool-cases (format i == b'#')) [
    | inl e ↦
        let hash : format i ≡ b'#' = (==_iff (format i) b'#').0 e in
        let (le, lt') = skip-inside n fuel 1 (suc i) h (h i lt (inr hash)) in
        rw e (omega arith, lt')
    | inr e ↦ rw e (omega arith, lt)
  ]

  printf_from-Returns :
      (n fuel i esp : ℕ) (k : Kernel)
      → IsLength format n
      → IsClosed n
      → i ≤ n
      → n < i + fuel
      → (k' : Kernel) × (printf_from format args string_at conv_buf fuel i esp k ≡ some (n, k'))
        × Prints k k'
  unfolding printf_from
  printf_from-Returns n zero i esp k len h le lt = absurd (omega arith)
  printf_from-Returns n (suc fuel) i esp k len h le lt = elim (ℕ_discrete i n) [
    | yes e ↦ (k, rw (e, ==_yes (format n) 0 len.ends) refl, Prints-none k)
    | no e ↦ elim (Bool-cases (format i == b'%')) [
      | inl f ↦
          let here : format i ≡ b'%' = (==_iff (format i) b'%').0 f in
          let (le', lt') = skip-inside n u32 0 (suc i) h (h i (omega arith) (inl here)) in
          let (alternate, j) = skip_hashes format args string_at conv_buf u32 0 (suc i) in
          let (esp', k1, runs, prints) = convert-Returns alternate j esp k in
          let (k', more, prints') =
            printf_from-Returns n fuel (suc j) esp' k1 len h (omega arith) (omega arith) in
          (
            k',
            rw (==_no (format i) 0 (len.before i (omega arith)), f, runs) more,
            Prints-trans k k1 k' prints prints',
          )
      | inr f ↦
          let k1 = putc (format i) k in
          let (k', more, prints') =
            printf_from-Returns n fuel (suc i) esp k1 len h (omega arith) (omega arith) in
          (
            k',
            rw (==_no (format i) 0 (len.before i (omega arith)), f) more,
            Prints-trans k k1 k' (putc-Prints (format i) k) prints',
          )
    ]
  ]

-- `printf` returns, with the length of its format, after printing characters and doing nothing
-- else: for a format with fewer than 2^32 characters and no '%' or '#' as its last one, for
-- arguments that are 32-bit words, and if every string that `%s` can be given ends in the address
-- space.
pub printf-Returns :
    (format : Bytes) (args : ℕ → ℕ) (string_at : ℕ → Bytes) (conv_buf : ℕ → Bytes) (n : ℕ)
    (k : Kernel)
    → ((e : ℕ) → args e < u32)
    → ((p : ℕ) → p < u32 → HasEnd (string_at p))
    → IsLength format n
    → n < u32
    → ((i : ℕ) → i < n → (format i ≡ b'%') ⊎ (format i ≡ b'#') → suc i < n)
    → (k' : Kernel) × (printf format args string_at conv_buf k ≡ some (n, k')) × Prints k k'
unfolding printf
printf-Returns format args string_at conv_buf n k words ends len lt closed =
    printf_from-Returns format args string_at conv_buf words ends n u32 0 0 k len closed zero-le
      (omega arith)
