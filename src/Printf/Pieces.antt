-- ===== src/Printf/Pieces.antt =====
-- The formats of lib.c's `printf` as pieces, and the text that each piece prints.
use light_os_a_linus_like_os.Common.{
  ℕ, suc, ◌+◌, ◌%◌, ◌<◌, ◌≡◌, ◌≢◌, List, [], ◌∷◌, ◌++◌, u32, length,
}
use light_os_a_linus_like_os.Memory.{Bytes}
use light_os_a_linus_like_os.CString.Length.{IsLength}
use light_os_a_linus_like_os.Printf.Conversions.{IsSigned, IsPadded}
use light_os_a_linus_like_os.Printf.Texts.{IsNumber, slice}

-- The pieces of a format: a character that stands for itself, and the conversions.
pub data Piece : Type 0 where
  literal : ℕ → Piece
  percent hex padded_hex unsigned signed character string : Piece

abbrev pub spelling : Piece → List ℕ
spelling (literal c) = c ∷ []
spelling percent = b'%' ∷ b'%' ∷ []
spelling hex = b'%' ∷ b'x' ∷ []
spelling padded_hex = b'%' ∷ b'#' ∷ b'x' ∷ []
spelling unsigned = b'%' ∷ b'u' ∷ []
spelling signed = b'%' ∷ b'd' ∷ []
spelling character = b'%' ∷ b'c' ∷ []
spelling string = b'%' ∷ b's' ∷ []

-- How many arguments a piece takes.
abbrev pub takes : Piece → ℕ
takes (literal c) = 0
takes percent = 0
takes hex = 1
takes padded_hex = 1
takes unsigned = 1
takes signed = 1
takes character = 1
takes string = 1

-- `t` is the text of a piece, with `v` the word of its argument.
abbrev pub IsText : (ℕ → Bytes) → Piece → ℕ → List ℕ → Type 0
IsText string_at (literal c) v t = t ≡ c ∷ []
IsText string_at percent v t = t ≡ b'%' ∷ []
IsText string_at hex v t = IsNumber 16 v t
IsText string_at padded_hex v t = IsPadded v t
IsText string_at unsigned v t = IsNumber 10 v t
IsText string_at signed v t = IsSigned v t
IsText string_at character v t = t ≡ v % 256 ∷ []
IsText string_at string v t = (n : ℕ) × IsLength (string_at v) n × (t ≡ slice (string_at v) 0 n)

-- The characters `cs` stand in `s` from `i` on.
abbrev pub Stands : Bytes → ℕ → List ℕ → Type 0
Stands s i [] = Unit
Stands s i (c ∷ cs) = (s i ≡ c) × Stands s (suc i) cs

-- What a piece needs: a literal is neither NUL nor '%', and a string has an end.
abbrev pub Ready : (ℕ → Bytes) → Piece → ℕ → Type 0
Ready string_at (literal c) v = (c ≢ 0) × (c ≢ b'%')
Ready string_at string v = (n : ℕ) × IsLength (string_at v) n × (n < u32)
Ready string_at _ v = v < u32

-- The format from `i` on consists of the pieces, with the arguments from `esp` on.
abbrev pub Consists : Bytes → (ℕ → ℕ) → (ℕ → Bytes) → ℕ → ℕ → List Piece → Type 0
Consists format args string_at i esp [] = format i ≡ 0
Consists format args string_at i esp (p ∷ ps) =
    Stands format i (spelling p)
    × Ready string_at p (args esp)
    × Consists format args string_at (i + length (spelling p)) (esp + takes p) ps

-- `out` is the texts of the pieces, in their order.
abbrev pub Texts : (ℕ → ℕ) → (ℕ → Bytes) → ℕ → List Piece → List ℕ → Type 0
Texts args string_at esp [] out = out ≡ []
Texts args string_at esp (p ∷ ps) out =
    (t : List ℕ) × (rest : List ℕ) × (out ≡ t ++ rest)
    × IsText string_at p (args esp) t
    × Texts args string_at (esp + takes p) ps rest

abbrev pub size : List Piece → ℕ
size [] = 0
size (p ∷ ps) = length (spelling p) + size ps
