-- ===== src/Text.antt =====
-- The string literals of the source: their characters, and the NUL-terminated strings in memory.
use Prim.Native.String.{String}
use Prim.Native.Char.{code}
use light_os_a_linus_like_os.Common.{
  ℕ, zero, suc, ◌<◌, ◌≡◌, refl, ◌≢◌, Bool, true, false, List, [], ◌∷◌, length, get_or, ◌==◌, arith,
  if◌then◌else◌,
}
use light_os_a_linus_like_os.Memory.{Bytes}
use light_os_a_linus_like_os.CString.Length.{IsLength}

-- The characters of a literal.
abbrev pub codes : String → List ℕ
codes String.[] = []
codes (String.◌∷◌ c s) = code c ∷ codes s

-- The bytes of a list at a pointer.
abbrev pub bytes_of : List ℕ → Bytes
bytes_of l i = get_or l i 0

-- No character is NUL.
abbrev pub has_no_nul : List ℕ → Bool
has_no_nul [] = true
has_no_nul (c ∷ cs) = if c == 0 then false else has_no_nul cs

pub past_end : (cs : List ℕ) → get_or cs (length cs) 0 ≡ 0
past_end [] = refl
past_end (c ∷ cs) = past_end cs

no_nul : (cs : List ℕ) (i : ℕ) → has_no_nul cs ≡ true → i < length cs → get_or cs i 0 ≢ 0
no_nul [] i h lt = absurd (omega arith)
no_nul (c ∷ cs) zero h lt = ground arith
no_nul (c ∷ cs) (suc i) h lt = no_nul cs i (ground arith) (omega arith)

pub bytes_of-IsLength : (cs : List ℕ) → has_no_nul cs ≡ true → IsLength (bytes_of cs) (length cs)
bytes_of-IsLength cs h = record { ends = past_end cs; before = λ i. no_nul cs i h }
