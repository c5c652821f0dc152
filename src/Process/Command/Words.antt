-- ===== src/Process/Command/Words.antt =====
-- The words that `syscall_execute` of syscall.c takes a command apart into.
use native.Mathlib.Nat.{add-zero, zero-add}
use mathlib.Core.Path.{subst}
use light_os_a_linus_like_os.Common.{
  ℕ, zero, suc, ◌+◌, ◌-◌, ◌<◌, ◌≤◌, ◌≡◌, refl, ◌≢◌, ◌⊎◌, inl, inr, ap, sym, ◌∙◌, Bool, true, false,
  List, [], ◌∷◌, ◌++◌, length, ==_no, arith,
}
use light_os_a_linus_like_os.Memory.{Bytes}
use light_os_a_linus_like_os.CString.Length.{IsLength}
use light_os_a_linus_like_os.Process.Command.{word_from}

-- The characters from `i` on are those of the list, and neither NULs nor blanks.
abbrev pub IsWordAt : Bytes → ℕ → List ℕ → Type 0
IsWordAt command i [] = Unit
IsWordAt command i (c ∷ cs) = (command i ≡ c) × (c ≢ 0) × (c ≢ b' ') × IsWordAt command (suc i) cs

-- A word ends at a NUL, or at a blank unless it is empty.
abbrev pub EndsAt : Bytes → ℕ → List ℕ → Type 0
EndsAt command j word = (command j ≡ 0) ⊎ ((command j ≡ b' ') × (0 < length word))

skip_blanks :
    (n rounds i : ℕ) (command : Bytes) (word : List ℕ)
    → ((j : ℕ) → j < n → command (i + j) ≡ b' ')
    → word_from (n + rounds) command i false word ≡ word_from rounds command (i + n) false word
unfolding word_from
skip_blanks zero rounds i command word h = rw (add-zero i, zero-add rounds) refl
skip_blanks (suc n) rounds i command word h =
    let here : command i ≡ b' ' = ap command (omega arith) ∙ h 0 (omega arith) in
    let next : i + suc n ≡ suc i + n = omega arith in
    let more : suc n + rounds ≡ suc (n + rounds) = omega arith in
    rw (more, here, next)
      (skip_blanks n rounds (suc i) command word
        (λ j lt. ap command (omega arith) ∙ h (suc j) (omega arith)))

append-append : (word cs : List ℕ) (c : ℕ) → (word ++ (c ∷ [])) ++ cs ≡ word ++ (c ∷ cs)
append-append [] cs c = refl
append-append (d ∷ word) cs c = ap (λ l. d ∷ l) (append-append word cs c)

append_nil : (word : List ℕ) → word ++ [] ≡ word
append_nil [] = refl
append_nil (d ∷ word) = ap (λ l. d ∷ l) (append_nil word)

take_letter :
    (rounds i c : ℕ) (flag : Bool) (command : Bytes) (word : List ℕ)
    → command i ≡ c
    → c ≢ 0
    → c ≢ b' '
    → word_from (suc rounds) command i flag word
      ≡ word_from rounds command (suc i) true (word ++ (c ∷ []))
unfolding word_from
take_letter rounds i c false command word e full ne = rw (e, ==_no c 0 full, ==_no c b' ' ne) refl
take_letter rounds i c true command word e full ne = rw (e, ==_no c 0 full, ==_no c b' ' ne) refl

take_letters :
    (cs : List ℕ) (rounds i : ℕ) (command : Bytes) (word : List ℕ)
    → IsWordAt command i cs
    → word_from (length cs + rounds) command i true word
      ≡ word_from rounds command (i + length cs) true (word ++ cs)
take_letters [] rounds i command word h = rw (add-zero i, append_nil word, zero-add rounds) refl
take_letters (c ∷ cs) rounds i command word (e, full, ne, rest) =
    let next : i + length (c ∷ cs) ≡ suc i + length cs = omega arith in
    let more : suc (length cs) + rounds ≡ suc (length cs + rounds) = omega arith in
    rw more (
      take_letter (length cs + rounds) i c true command word e full ne
      ∙ take_letters cs rounds (suc i) command (word ++ (c ∷ [])) rest
      ∙ rw (next, append-append word cs c) refl)

stop :
    (rounds j : ℕ) (flag : Bool) (command : Bytes) (word : List ℕ)
    → (command j ≡ 0) ⊎ ((command j ≡ b' ') × (flag ≡ true))
    → word_from (suc rounds) command j flag word ≡ (j, word ++ (0 ∷ []))
unfolding word_from
stop rounds j flag command word (inl e) = rw e refl
stop rounds j flag command word (inr (e, begun)) = rw (e, begun) refl

-- One of the two loops, on `n` blanks and a word, with a round more than characters.
pub word_from_lem :
    (cs : List ℕ) (n extra i : ℕ) (command : Bytes)
    → ((j : ℕ) → j < n → command (i + j) ≡ b' ')
    → IsWordAt command (i + n) cs
    → EndsAt command (i + n + length cs) cs
    → word_from (n + (length cs + suc extra)) command i false []
      ≡ (i + n + length cs, cs ++ (0 ∷ []))
word_from_lem [] n extra i command blank h e =
    let more : zero + suc extra ≡ suc extra = omega arith in
    rw more (
      skip_blanks n (suc extra) i command [] blank
      ∙ rw (add-zero (i + n)) (stop extra (i + n) false command [] (inl (empty e))))
  where
    empty : EndsAt command (i + n + 0) [] → command (i + n) ≡ 0
    empty (inl e) = ap command (omega arith) ∙ e
    empty (inr (e, lt)) = absurd (omega arith)
word_from_lem (c ∷ cs) n extra i command blank (e, full, ne, rest) end =
    let next : i + n + length (c ∷ cs) ≡ suc (i + n) + length cs = omega arith in
    let more : suc (length cs) + suc extra ≡ suc (length cs + suc extra) = omega arith in
    rw more (
      skip_blanks n (suc (length cs + suc extra)) i command [] blank
      ∙ take_letter (length cs + suc extra) (i + n) c false command [] e full ne
      ∙ take_letters cs (suc extra) (suc (i + n)) command (c ∷ []) rest
      ∙ rw next (stop extra (suc (i + n) + length cs) true command (c ∷ cs) (ends end)))
  where
    ends :
        EndsAt command (i + n + length (c ∷ cs)) (c ∷ cs)
        → (command (suc (i + n) + length cs) ≡ 0)
          ⊎ ((command (suc (i + n) + length cs) ≡ b' ') × (true ≡ true))
    ends (inl e) = inl (ap command (omega arith) ∙ e)
    ends (inr (e, lt)) = inr (ap command (omega arith) ∙ e, refl)

-- A command of `len` characters: blanks, the name, blanks, the argument, which may be empty; what
-- comes behind a blank after the argument does not matter.
pub record Words (command : Bytes) (len before between : ℕ) (name arg : List ℕ) : Type 0 where
  pub is_length : IsLength command len
  pub blanks_before : (j : ℕ) → j < before → command j ≡ b' '
  pub name_at : IsWordAt command before name
  pub name_ends : EndsAt command (before + length name) name
  pub blanks_between : (j : ℕ) → j < between → command (before + length name + j) ≡ b' '
  pub arg_at : IsWordAt command (before + length name + between) arg
  pub arg_ends : EndsAt command (before + length name + between + length arg) arg
  pub inside : before + length name + between + length arg ≤ len

module _ (command : Bytes) (len before between : ℕ) (name arg : List ℕ)
    (w : Words command len before between name arg) where
  pub name_lem : word_from (len + 1) command 0 false [] ≡ (before + length name, name ++ (0 ∷ []))
  name_lem =
      let extra = len - (before + length name) in
      let enough : len + 1 ≡ before + (length name + suc extra) = omega (arith, w.inside) in
      let from = sym (zero-add before) in
      rw enough (
        word_from_lem name before extra 0 command
          (λ j lt. ap command (zero-add j) ∙ w.blanks_before j lt)
          (subst (λ i. IsWordAt command i name) from w.name_at)
          (subst (λ i. EndsAt command (i + length name) name) from w.name_ends)
        ∙ ap (λ i. (i + length name, name ++ (0 ∷ []))) (zero-add before))

  pub argument_lem :
      (word_from (len + 1 - (before + length name)) command (before + length name) false []).1
      ≡ arg ++ (0 ∷ [])
  argument_lem =
      let extra = len - (before + length name + between + length arg) in
      let enough : len + 1 - (before + length name) ≡ between + (length arg + suc extra) =
        omega (arith, w.inside) in
      rw enough (
        ap (λ r. r.1)
          (word_from_lem arg between extra (before + length name) command w.blanks_between w.arg_at
            w.arg_ends))
