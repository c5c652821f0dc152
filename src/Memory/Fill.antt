-- ===== src/Memory/Fill.antt =====
-- lib.c's `memset_word` and `memset_dword`, which fill memory with 16-bit and 32-bit words.
use light_os_a_linus_like_os.Common.{
  ℕ, zero, suc, ◌+◌, ◌*◌, ◌/◌, ◌%◌, ◌<◌, ◌≤◌, ◌≡◌, ◌⊎◌, u32, arith, refl, ◌∙◌, inl,
}
use light_os_a_linus_like_os.Memory.Copy.{Bytes, update, load32}

-- Stores of the low 16 bits and of 32 bits, least significant byte first.
abbrev pub store16 : Bytes → ℕ → ℕ → Bytes
store16 m p c = update (update m p (c % 256)) (p + 1) (c / 256 % 256)

abbrev pub store32 : Bytes → ℕ → ℕ → Bytes
store32 m p c = store16 (store16 m p c) (p + 2) (c / 65536)

-- `n` counts words, as `rep stosw` and `rep stosl` do.
unfoldable pub memset_word : ℕ → ℕ → ℕ → Bytes → Bytes
memset_word zero s c m = m
memset_word (suc n) s c m = memset_word n (s + 2) c (store16 m s c)

unfoldable pub memset_dword : ℕ → ℕ → ℕ → Bytes → Bytes
memset_dword zero s c m = m
memset_dword (suc n) s c m = memset_dword n (s + 4) c (store32 m s c)

-- Bytes outside the area keep their values.
memset_word-outside :
    (n s c : ℕ) (m : Bytes) (i : ℕ) → (i < s) ⊎ (s + 2 * n ≤ i) → memset_word n s c m i ≡ m i
unfolding memset_word
memset_word-outside zero s c m i o = ground arith
memset_word-outside (suc n) s c m i o =
    ground (arith, memset_word-outside n (s + 2) c (store16 m s c) i)

memset_dword-outside :
    (n s c : ℕ) (m : Bytes) (i : ℕ) → (i < s) ⊎ (s + 4 * n ≤ i) → memset_dword n s c m i ≡ m i
unfolding memset_dword
memset_dword-outside zero s c m i o = ground arith
memset_dword-outside (suc n) s c m i o =
    ground (arith, memset_dword-outside n (s + 4) c (store32 m s c) i)

abbrev pub load16 : Bytes → ℕ → ℕ
load16 m p = m p + 256 * m (p + 1)

load16-same : (a b : Bytes) (p : ℕ) → a p ≡ b p → a (p + 1) ≡ b (p + 1) → load16 a p ≡ load16 b p
load16-same a b p e f = rw (e, f) refl

load16-store16 : (m : Bytes) (p c : ℕ) → load16 (store16 m p c) p ≡ c % 65536
load16-store16 m p c =
    let low : store16 m p c p ≡ c % 256 = ground arith in
    let high : store16 m p c (p + 1) ≡ c / 256 % 256 = ground arith in rw (low, high) (omega arith)

load32-store32 : (m : Bytes) (p c : ℕ) → c < u32 → load32 (store32 m p c) p ≡ c
load32-store32 m p c fits =
    let b0 : store32 m p c p ≡ c % 256 = ground arith in
    let b1 : store32 m p c (p + 1) ≡ c / 256 % 256 = ground arith in
    let b2 : store32 m p c (p + 2) ≡ c / 65536 % 256 = ground arith in
    let b3 : store32 m p c (p + 3) ≡ c / 65536 / 256 % 256 = ground arith in
    rw (b0, b1, b2, b3) (omega arith)

memset_word-inside :
    (n s c : ℕ) (m : Bytes) (j : ℕ) → j < n → load16 (memset_word n s c m) (s + 2 * j) ≡ c % 65536
unfolding memset_word
memset_word-inside zero s c m j lt = absurd (omega arith)
memset_word-inside (suc n) s c m zero lt =
    let place : s + 2 * 0 ≡ s = omega arith in
    let kept : (i : ℕ) → i < s + 2 → memset_word n (s + 2) c (store16 m s c) i ≡ store16 m s c i =
      λ i h. memset_word-outside n (s + 2) c (store16 m s c) i (inl h) in
    rw place (
      load16-same (memset_word n (s + 2) c (store16 m s c)) (store16 m s c) s (kept s (omega arith))
        (kept (s + 1) (omega arith))
      ∙ load16-store16 m s c)
memset_word-inside (suc n) s c m (suc j) lt =
    let place : s + 2 * suc j ≡ s + 2 + 2 * j = omega arith in
    rw place (memset_word-inside n (s + 2) c (store16 m s c) j (omega arith))

memset_dword-inside :
    (n s c : ℕ) (m : Bytes) (j : ℕ)
    → c < u32
    → j < n
    → load32 (memset_dword n s c m) (s + 4 * j) ≡ c
unfolding memset_dword
memset_dword-inside zero s c m j fits lt = absurd (omega arith)
memset_dword-inside (suc n) s c m zero fits lt =
    let place : s + 4 * 0 ≡ s = omega arith in
    let kept : (i : ℕ) → i < s + 4 → memset_dword n (s + 4) c (store32 m s c) i ≡ store32 m s c i =
      λ i h. memset_dword-outside n (s + 4) c (store32 m s c) i (inl h) in
    rw
      (
        place,
        kept s (omega arith),
        kept (s + 1) (omega arith),
        kept (s + 2) (omega arith),
        kept (s + 3) (omega arith),
      )
      (load32-store32 m s c fits)
memset_dword-inside (suc n) s c m (suc j) fits lt =
    let place : s + 4 * suc j ≡ s + 4 + 4 * j = omega arith in
    rw place (memset_dword-inside n (s + 4) c (store32 m s c) j fits (omega arith))

-- `memset_word` and `memset_dword` fill `n` words, not `n` bytes: each of the 16-bit words of the
-- area reads as the low 16 bits of `c`, each of the 32-bit words as `c`, and the bytes outside the
-- `2 * n` or `4 * n` bytes are kept.
pub memset_words_lem :
    (n s c : ℕ) (m : Bytes)
    → c < u32
    → ((j : ℕ) → j < n → load16 (memset_word n s c m) (s + 2 * j) ≡ c % 65536)
      × ((i : ℕ) → (i < s) ⊎ (s + 2 * n ≤ i) → memset_word n s c m i ≡ m i)
      × ((j : ℕ) → j < n → load32 (memset_dword n s c m) (s + 4 * j) ≡ c)
      × ((i : ℕ) → (i < s) ⊎ (s + 4 * n ≤ i) → memset_dword n s c m i ≡ m i)
memset_words_lem n s c m fits = (
  memset_word-inside n s c m,
  memset_word-outside n s c m,
  λ j. memset_dword-inside n s c m j fits,
  memset_dword-outside n s c m,
)
