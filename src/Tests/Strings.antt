-- ===== src/Tests/Strings.antt =====
-- Examples for lib.c's numbers, `printf` and copies.
use mathlib.Core.Option
use light_os_a_linus_like_os.Common.{
  ℕ, zero, suc, ◌+◌, ◌-◌, ◌<◌, ◌≤◌, ◌≡◌, refl, ◌⊎◌, inl, inr, some, List, [], ◌∷◌, u32, ltb, leb,
  ◌&&◌, if◌then◌else◌, arith,
}
use light_os_a_linus_like_os.Memory.{Bytes, memmove, memmove_lem}
use light_os_a_linus_like_os.Text.{codes, bytes_of, bytes_of-IsLength}
use light_os_a_linus_like_os.Kernel.{Kernel}
use light_os_a_linus_like_os.Console.{put_all}
use light_os_a_linus_like_os.Number.{itoa}
use light_os_a_linus_like_os.Number.Reading.{IsNumeral, itoa_lem}
use light_os_a_linus_like_os.Printf.{padded_buffer, padded_buffer, hex, unsigned, signed, printf}
use light_os_a_linus_like_os.Printf.Bounds.{WritesBelow, conversions_fit}
use light_os_a_linus_like_os.Printf.Pieces.{Piece, literal, padded_hex, Texts, size}
use light_os_a_linus_like_os.Printf.Format.{printf_lem}
use light_os_a_linus_like_os.Printf.Returns.{Prints, printf-Returns}
use light_os_a_linus_like_os.Tests.{zeros, name, kernel}

itoa_lem_example :
    (n : ℕ) × (s : Bytes) × (itoa 391 zeros 10 ≡ some s) × (n ≤ 32) × IsNumeral 10 391 n zeros s
itoa_lem_example = itoa_lem 391 10 zeros (omega arith) (omega arith) (omega arith)

conversions_fit_example :
    WritesBelow 9 zeros (hex 391 zeros)
    × WritesBelow 17 zeros (Option.map (λ r. r.1) (padded_buffer 391 zeros))
    × WritesBelow 11 zeros (unsigned 391 zeros)
    × WritesBelow 12 zeros (signed 391 zeros)
conversions_fit_example = conversions_fit 391 zeros (omega arith)

-- `printf("%d=%#x", -1, 391)`
abbrev format : Bytes
format = bytes_of (codes "%d=%#x")

abbrev args : ℕ → ℕ
args zero = u32 - 1
args (suc i) = 391

abbrev pieces : List Piece
pieces = Piece.signed ∷ literal b'=' ∷ padded_hex ∷ []

printf_lem_example :
    (out : List ℕ) × Texts args (λ p. zeros) 0 pieces out
    × (printf format args (λ p. zeros) (λ i. zeros) kernel ≡ some (size pieces, put_all out kernel))
printf_lem_example =
    printf_lem format args (λ p. zeros) (λ i. zeros) pieces kernel
      (
        (refl, (refl, tt)),
        omega arith,
        ((refl, tt), (omega arith, omega arith), ((refl, (refl, (refl, tt))), omega arith, refl)),
      )
      (omega arith)

args-words : (e : ℕ) → args e < u32
args-words zero = omega arith
args-words (suc e) = omega arith

closed : (i : ℕ) → i < 6 → (format i ≡ b'%') ⊎ (format i ≡ b'#') → suc i < 6
closed zero lt q = omega arith
closed (suc zero) lt q = omega arith
closed (suc (suc zero)) lt q = omega arith
closed (suc (suc (suc zero))) lt q = omega arith
closed (suc (suc (suc (suc zero)))) lt q = omega arith
closed (suc (suc (suc (suc (suc zero))))) lt (inl e) = absurd (omega arith)
closed (suc (suc (suc (suc (suc zero))))) lt (inr e) = absurd (omega arith)
closed (suc (suc (suc (suc (suc (suc i)))))) lt q = absurd (omega arith)

printf-Returns_example :
    (k' : Kernel) × (printf format args (λ p. zeros) (λ i. zeros) kernel ≡ some (6, k'))
    × Prints kernel k'
printf-Returns_example =
    printf-Returns format args (λ p. zeros) (λ i. zeros) 6 kernel args-words
      (λ p lt. (0, record { ends = refl; before = λ i lt'. absurd (omega arith) }, omega arith))
      (bytes_of-IsLength (codes "%d=%#x") refl) (omega arith) closed

-- Two areas that overlap.
memmove_lem_example :
    ((memmove 12 10 4 name).0 13
      ≡ (if leb 12 13 && ltb 13 (12 + 4) then name (10 + 13 - 12) else name 13))
    × ((memmove 12 10 4 name).1 ≡ ltb 10 12)
memmove_lem_example = memmove_lem 12 10 4 name 13
