-- ===== src/Exceptions/Prints.antt =====
-- What exceptions.c's handler shows, and in which state it loops.
use native.Mathlib.Decide.{ℕ_discrete}
use light_os_a_linus_like_os.Common.{
  ℕ, zero, suc, ◌<◌, ◌≤◌, ◌≡◌, ◌≢◌, refl, inl, inr, Bool-cases, not_below, ltb→lt, ap, ◌∙◌, some,
  Bool, true, ◌&&◌, List, [], ◌∷◌, ◌++◌, length, get_or, ltb, arith, lt→ltb,
}
use light_os_a_linus_like_os.Memory.{Bytes}
use light_os_a_linus_like_os.CString.Length.{IsLength}
use light_os_a_linus_like_os.Text.{codes, bytes_of, has_no_nul, bytes_of-IsLength}
use light_os_a_linus_like_os.Kernel.{Kernel, cli}
use light_os_a_linus_like_os.Console.{putc, put_all, blue_screen}
use light_os_a_linus_like_os.Printf.{printf}
use light_os_a_linus_like_os.Printf.Texts.{slice, slice-bytes_of}
use light_os_a_linus_like_os.Printf.Pieces.{literal, string}
use light_os_a_linus_like_os.Printf.Format.{printf_lem}
use light_os_a_linus_like_os.Console.Blue.{IsBlue, blue_screen-IsBlue}
use light_os_a_linus_like_os.Exceptions.Names.{message, names}
use light_os_a_linus_like_os.Exceptions.{exceptions, exception_handler}

-- A string has one length.
IsLength-unique : (s : Bytes) (n m : ℕ) → IsLength s n → IsLength s m → n ≡ m
IsLength-unique s n m h h' = elim (ℕ_discrete n m) [
  | yes e ↦ e
  | no e ↦ elim (Bool-cases (ltb n m)) [
    | inl f ↦ absurd (h'.before n (ltb→lt n m f) h.ends)
    | inr f ↦ let above : m < n = less (not_below n m f) e in absurd (h.before m above h'.ends)
  ]
]
  where
    less : {n m : ℕ} → m ≤ n → n ≢ m → m < n
    less le ne = omega arith

-- Printing a character ends with the interrupts on.
interrupts_on :
    (cs : List ℕ) (c : ℕ) (k : Kernel) → (put_all (cs ++ (c ∷ [])) k).cpu.interrupts ≡ true
unfolding put_all putc
interrupts_on [] c k = refl
interrupts_on (d ∷ cs) c k = interrupts_on cs c (putc d k)

-- Every name in the table is a string.
all_strings : List (List ℕ) → Bool
all_strings [] = true
all_strings (cs ∷ rest) = has_no_nul cs && all_strings rest

name_string : (l : List (List ℕ)) (i : ℕ) → all_strings l ≡ true → has_no_nul (get_or l i []) ≡ true
unfolding all_strings
name_string [] i h = refl
name_string (cs ∷ rest) zero h = ground arith
name_string (cs ∷ rest) (suc i) h = name_string rest i (ground arith)

short_names : List (List ℕ) → Bool
short_names [] = true
short_names (cs ∷ rest) = ltb (length cs) 64 && short_names rest

name_short : (l : List (List ℕ)) (i : ℕ) → short_names l ≡ true → length (get_or l i []) < 64
unfolding short_names
name_short [] i h = omega arith
name_short (cs ∷ rest) zero h = ground arith
name_short (cs ∷ rest) (suc i) h = name_short rest i (ground arith)

names_are_strings : (v : ℕ) → has_no_nul (get_or exceptions v []) ≡ true
unfolding all_strings
names_are_strings v = name_string exceptions v refl

names_are_short : (v : ℕ) → length (get_or exceptions v []) < 64
unfolding short_names
names_are_short v = name_short exceptions v refl

print_name :
    (conv_buf : ℕ → Bytes) (v : ℕ) (k : Kernel)
    → printf (bytes_of (codes "%s\n")) (λ _. v) (λ p. bytes_of (get_or exceptions p [])) conv_buf k
      ≡ some (3, put_all (get_or exceptions v [] ++ (b'\n' ∷ [])) k)
print_name conv_buf v k =
    let name = get_or exceptions v [] in
    let len = bytes_of-IsLength name (names_are_strings v) in
    let short = names_are_short v in
    let (out, (t, rest, parts, (n, is_n, text), (t', rest', parts', line, done)), runs) =
      printf_lem (bytes_of (codes "%s\n")) (λ _. v) (λ p. bytes_of (get_or exceptions p []))
        conv_buf (string ∷ literal b'\n' ∷ []) k
        (
          (refl, (refl, tt)),
          (length name, len, omega arith),
          ((refl, tt), (omega arith, omega arith), refl),
        )
        (omega arith) in
    let same : n ≡ length name = IsLength-unique (bytes_of name) n (length name) is_n len in
    let whole : t ≡ name = text ∙ ap (slice (bytes_of name) 0) same ∙ slice-bytes_of name in
    let end : rest ≡ b'\n' ∷ [] = parts' ∙ rw (line, done) refl in
    runs ∙ ap (λ l. some (3, put_all l k)) (parts ∙ rw (whole, end) refl)

-- For each of the 20 vectors the handler returns from `printf`, having turned the background of the
-- scheduled terminal's 2000 cells blue and then printed the processor's name of the exception on a
-- line of its own, in that terminal; the loop that follows then runs with interrupts on, although
-- the handler starts with `cli`.
pub exception_handler_lem :
    (conv_buf : ℕ → Bytes) (v : ℕ) (k : Kernel)
    → v < 20
    → (blue_kernel k' : Kernel) × (exception_handler conv_buf v k ≡ some k')
      × IsBlue (cli k) blue_kernel
      × (k' ≡ put_all (message v ++ (b'\n' ∷ [])) blue_kernel)
      × (k'.cpu.interrupts ≡ true)
unfolding exception_handler
exception_handler_lem conv_buf v k lt =
    let text = get_or exceptions v [] ++ (b'\n' ∷ []) in
    (
      blue_screen (cli k),
      put_all text (blue_screen (cli k)),
      rw (lt→ltb v 20 lt, print_name conv_buf v (blue_screen (cli k))) refl,
      blue_screen-IsBlue (cli k),
      ap (λ l. put_all (l ++ (b'\n' ∷ [])) (blue_screen (cli k))) (names v lt),
      interrupts_on (get_or exceptions v []) b'\n' (blue_screen (cli k)),
    )
