-- ===== src/Printf/Format.antt =====
-- What lib.c's `printf` prints: the texts of the pieces of its format, one after the other.
use native.Mathlib.Nat.{zero-add}
use light_os_a_linus_like_os.Common.{
  ℕ, zero, suc, ◌+◌, ◌-◌, ◌%◌, ◌<◌, ◌≡◌, refl, ◌≢◌, ap, sym, ◌∙◌, Option, some, List, [], ◌∷◌, ◌++◌,
  u32, length, arith, ==_no,
}
use light_os_a_linus_like_os.Memory.{Bytes}
use light_os_a_linus_like_os.CString.Length.{IsLength}
use light_os_a_linus_like_os.Kernel.{Kernel}
use light_os_a_linus_like_os.Console.{putc, put_all}
use light_os_a_linus_like_os.Printf
use light_os_a_linus_like_os.Printf.{printf, printf_from, convert, put_text, skip_hashes}
use light_os_a_linus_like_os.Printf.Conversions.{
  Gives, IsSigned, IsPadded, hex-Gives, padded_hex-Gives, unsigned-Gives, signed-Gives,
}
use light_os_a_linus_like_os.Printf.Texts.{IsNumber, slice, puts_lem, put_all-++}
use light_os_a_linus_like_os.Printf.Pieces.{
  Piece, literal, percent, hex, padded_hex, unsigned, signed, character, string, spelling, takes,
  IsText, Stands, Ready, Consists, Texts, size,
}

module _ (format : Bytes) (args : ℕ → ℕ) (string_at : ℕ → Bytes) (conv_buf : ℕ → Bytes) where
  put_text-Gives :
      (P : List ℕ → Type 0) (esp : ℕ) (k : Kernel) (o : Option Bytes)
      → Gives o P
      → (t : List ℕ) × P t
        × (put_text format args string_at conv_buf esp k o ≡ some (suc esp, put_all t k))
  unfolding put_text
  put_text-Gives P esp k o (s, n, runs, len, few, holds) =
      (slice s 0 n, holds, rw (runs, puts_lem s n k len few) refl)

  skip_none :
      (fuel alternate i : ℕ)
      → format i ≢ b'#'
      → skip_hashes format args string_at conv_buf fuel alternate i ≡ (alternate, i)
  unfolding skip_hashes
  skip_none zero alternate i ne = refl
  skip_none (suc fuel) alternate i ne = rw (==_no (format i) b'#' ne) refl

  skip_one :
      (fuel alternate i : ℕ)
      → format i ≡ b'#'
      → format (suc i) ≢ b'#'
      → skip_hashes format args string_at conv_buf (suc fuel) alternate i ≡ (1, suc i)
  unfolding skip_hashes
  skip_one fuel alternate i e ne = rw e (skip_none fuel 1 (suc i) ne)

  -- A conversion carries the loop on behind it.
  conversion_step :
      (fuel i j alternate esp esp' : ℕ) (k k' : Kernel)
      → format i ≡ b'%'
      → skip_hashes format args string_at conv_buf u32 0 (suc i) ≡ (alternate, j)
      → convert format args string_at conv_buf alternate j esp k ≡ some (esp', k')
      → printf_from format args string_at conv_buf (suc fuel) i esp k
        ≡ printf_from format args string_at conv_buf fuel (suc j) esp' k'
  unfolding printf_from
  conversion_step fuel i j alternate esp esp' k k' e skips converts = rw (e, skips, converts) refl

  -- One piece of the format takes one round of the loop, which prints its text.
  abbrev Steps : Piece → ℕ → ℕ → ℕ → Kernel → Type 0
  Steps p fuel i esp k =
      (t : List ℕ) × IsText string_at p (args esp) t
      × (printf_from format args string_at conv_buf (suc fuel) i esp k
          ≡ printf_from format args string_at conv_buf fuel (i + length (spelling p))
              (esp + takes p) (put_all t k))

  conversion-Steps :
      (p : Piece) (t : List ℕ) (fuel i j alternate esp : ℕ) (k : Kernel)
      → IsText string_at p (args esp) t
      → format i ≡ b'%'
      → skip_hashes format args string_at conv_buf u32 0 (suc i) ≡ (alternate, j)
      → convert format args string_at conv_buf alternate j esp k ≡ some (esp + takes p, put_all t k)
      → suc j ≡ i + length (spelling p)
      → Steps p fuel i esp k
  conversion-Steps p t fuel i j alternate esp k text e skips converts place = (
    t,
    text,
    conversion_step fuel i j alternate esp (esp + takes p) k (put_all t k) e skips converts
        ∙ ap (λ a. printf_from format args string_at conv_buf fuel a (esp + takes p) (put_all t k))
            place,
  )

  number-Steps :
      (p : Piece) (P : List ℕ → Type 0) (o : Option Bytes) (fuel i j alternate esp : ℕ) (k : Kernel)
      → ((t : List ℕ) → P t → IsText string_at p (args esp) t)
      → format i ≡ b'%'
      → skip_hashes format args string_at conv_buf u32 0 (suc i) ≡ (alternate, j)
      → convert format args string_at conv_buf alternate j esp k
        ≡ put_text format args string_at conv_buf esp k o
      → suc j ≡ i + length (spelling p)
      → takes p ≡ 1
      → Gives o P
      → Steps p fuel i esp k
  number-Steps p P o fuel i j alternate esp k text e skips converts place one gives =
      let (t, holds, puts) = put_text-Gives P esp k o gives in
      let next : suc esp ≡ esp + takes p = omega arith in
      conversion-Steps p t fuel i j alternate esp k (text t holds) e skips
        (converts ∙ puts ∙ ap (λ a. some (a, put_all t k)) next) place

  plain_skip :
      (i c : ℕ)
      → format (suc i) ≡ c
      → c ≢ b'#'
      → skip_hashes format args string_at conv_buf u32 0 (suc i) ≡ (0, suc i)
  plain_skip i c e ne = skip_none u32 0 (suc i) (λ h. ne (sym e ∙ h))

  literal-Steps :
      (c fuel i esp : ℕ) (k : Kernel)
      → format i ≡ c
      → c ≢ 0
      → c ≢ b'%'
      → Steps (literal c) fuel i esp k
  unfolding printf_from put_all
  literal-Steps c fuel i esp k here ne plain =
      let next : suc i ≡ i + 1 = omega arith in
      let same : esp ≡ esp + 0 = omega arith in
      (
        c ∷ [],
        refl,
        rw (here, ==_no c 0 ne, ==_no c b'%' plain, ← next)
            (ap (λ a. printf_from format args string_at conv_buf fuel (suc i) a (putc c k)) same),
      )

  steps :
      (p : Piece) (fuel i esp : ℕ) (k : Kernel)
      → Stands format i (spelling p)
      → Ready string_at p (args esp)
      → Steps p fuel i esp k
  unfolding convert put_all
  steps (literal c) fuel i esp k (here, _) (ne, plain) = literal-Steps c fuel i esp k here ne plain
  steps percent fuel i esp k (here, (next, _)) _ =
      conversion-Steps percent (b'%' ∷ []) fuel i (suc i) 0 esp k refl here
        (plain_skip i b'%' next (omega arith))
        (rw next (ap (λ a. some (a, putc b'%' k)) (omega arith))) (omega arith)
  steps hex fuel i esp k (here, (next, _)) small =
      number-Steps hex (IsNumber 16 (args esp)) (Printf.hex (args esp) (conv_buf (suc i))) fuel i
        (suc i) 0 esp k (λ t h. h) here (plain_skip i b'x' next (omega arith)) (rw next refl)
        (omega arith) refl (hex-Gives (args esp) (conv_buf (suc i)) small)
  steps padded_hex fuel i esp k (here, (hash, (next, _))) small =
      number-Steps padded_hex (IsPadded (args esp))
        (Printf.padded_hex (args esp) (conv_buf (suc (suc i)))) fuel i (suc (suc i)) 1 esp k
        (λ t h. h) here (skip_one (u32 - 1) 0 (suc i) hash (λ h. ground (arith, next, h)))
        (rw next refl) (omega arith) refl
        (padded_hex-Gives (args esp) (conv_buf (suc (suc i))) small)
  steps unsigned fuel i esp k (here, (next, _)) small =
      number-Steps unsigned (IsNumber 10 (args esp)) (Printf.unsigned (args esp) (conv_buf (suc i)))
        fuel i (suc i) 0 esp k (λ t h. h) here (plain_skip i b'u' next (omega arith)) (rw next refl)
        (omega arith) refl (unsigned-Gives (args esp) (conv_buf (suc i)) small)
  steps signed fuel i esp k (here, (next, _)) small =
      number-Steps signed (IsSigned (args esp)) (Printf.signed (args esp) (conv_buf (suc i))) fuel i
        (suc i) 0 esp k (λ t h. h) here (plain_skip i b'd' next (omega arith)) (rw next refl)
        (omega arith) refl (signed-Gives (args esp) (conv_buf (suc i)) small)
  steps character fuel i esp k (here, (next, _)) small =
      conversion-Steps character (args esp % 256 ∷ []) fuel i (suc i) 0 esp k refl here
        (plain_skip i b'c' next (omega arith))
        (rw next (ap (λ a. some (a, putc (args esp % 256) k)) (omega arith))) (omega arith)
  steps string fuel i esp k (here, (next, _)) (n, len, few) =
      number-Steps string
        (λ t. (n : ℕ) × IsLength (string_at (args esp)) n × (t ≡ slice (string_at (args esp)) 0 n))
        (some (string_at (args esp))) fuel i (suc i) 0 esp k (λ t h. h) here
        (plain_skip i b's' next (omega arith)) (rw next refl) (omega arith) refl
        (string_at (args esp), n, refl, len, few, (n, len, refl))

  printf_from_lem :
      (ps : List Piece) (fuel i esp : ℕ) (k : Kernel)
      → Consists format args string_at i esp ps
      → length ps < fuel
      → (out : List ℕ) × Texts args string_at esp ps out
        × (printf_from format args string_at conv_buf fuel i esp k
            ≡ some (i + size ps, put_all out k))
  unfolding printf_from put_all
  printf_from_lem ps zero i esp k h lt = absurd (omega arith)
  printf_from_lem [] (suc fuel) i esp k h lt =
      let whole : i ≡ i + 0 = omega arith in ([], refl, rw h (ap (λ a. some (a, k)) whole))
  printf_from_lem (p ∷ ps) (suc fuel) i esp k (stands, ready, more) lt =
      let (t, text, step) = steps p fuel i esp k stands ready in
      let (rest, texts, runs) =
        printf_from_lem ps fuel (i + length (spelling p)) (esp + takes p) (put_all t k) more
          (omega arith) in
      let place : i + length (spelling p) + size ps ≡ i + (length (spelling p) + size ps) =
        omega arith in
      (
        t ++ rest,
        (t, rest, refl, text, texts),
        step ∙ runs ∙ (λ j. some (place j, sym (put_all-++ t rest k) j)),
      )

-- `printf` with a format that consists of the given pieces prints the texts of the pieces, in
-- their order, and returns the length of the format. The texts: a literal's character; '%'; for
-- `%x` and `%u` the argument's numeral in radix 16 or 10, with no leading zero; for `%#x` the eight
-- hexadecimal digits, filled up with zeros; for `%d` the decimal numeral of the argument as an
-- `int32_t`, a minus in front if it is negative; for `%c` its low byte; for `%s` the characters
-- before the NUL. What the stack held before, `conv_buf`, does not matter. The arguments are
-- 32-bit words, the strings have an end, and the format has fewer than 2^32 pieces.
pub printf_lem :
    (format : Bytes) (args : ℕ → ℕ) (string_at : ℕ → Bytes) (conv_buf : ℕ → Bytes) (ps : List Piece)
    (k : Kernel)
    → Consists format args string_at 0 0 ps
    → length ps < u32
    → (out : List ℕ) × Texts args string_at 0 ps out
      × (printf format args string_at conv_buf k ≡ some (size ps, put_all out k))
unfolding printf
printf_lem format args string_at conv_buf ps k h lt =
    let (out, texts, runs) = printf_from_lem format args string_at conv_buf ps u32 0 0 k h lt in
    (out, texts, runs ∙ ap (λ a. some (a, put_all out k)) (zero-add (size ps)))
