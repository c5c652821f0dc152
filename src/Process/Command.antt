-- ===== src/Process/Command.antt =====
-- The two loops of `syscall_execute` that take the command apart.
pub mod Words
use light_os_a_linus_like_os.Common.{
  ℕ, zero, suc, Bool, not, ◌&&◌, ◌||◌, List, [], ◌∷◌, ◌++◌, ◌==◌, if◌then◌else◌,
}
use light_os_a_linus_like_os.Memory.{Bytes}

-- One of the loops: `rounds` characters are left from `i` on, `flag` says that a word has begun,
-- and `word` is what has been stored of it. The result is the index where the loop stops, at the
-- NUL or at the blank behind the word, and the word with its NUL.
unfoldable pub word_from : ℕ → Bytes → ℕ → Bool → List ℕ → ℕ × List ℕ
word_from zero command i flag word = (i, word)
word_from (suc rounds) command i flag word =
    let c = command i in
    let blank = c == b' ' in
    let word' = if blank then word else word ++ (c ∷ []) in
    let rest = word_from rounds command (suc i) (flag || not blank) word' in
    if c == 0 then (i, word ++ (0 ∷ [])) else if blank && flag then (i, word ++ (0 ∷ [])) else rest
