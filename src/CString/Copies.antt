-- ===== src/CString/Copies.antt =====
-- lib.c's `strcpy` and `strncpy`: which bytes the target holds afterwards.
use Prim.Native.Nat.{zero-le}
use native.Mathlib.Decide.{ℕ_discrete}
use light_os_a_linus_like_os.Common.{
  ℕ, zero, suc, ◌+◌, ◌<◌, ◌≤◌, ◌≡◌, ◌≢◌, ◌∙◌, ap, u32, ltb, leb, ◌&&◌, if◌then◌else◌, arith, refl,
  Bool, ==_yes, ==_no, true, lt→ltb,
}
use light_os_a_linus_like_os.Memory.{Bytes, update}
use light_os_a_linus_like_os.CString.{strcpy_from, strcpy, pad_from, strncpy_from, strncpy}
use light_os_a_linus_like_os.CString.Length.{IsLength}

-- One byte more at the front of what a copy has written; `last` tells where it ends.
copy_front :
    (i v : ℕ) (copy dest : Bytes) (j : ℕ) (inside : Bool)
    → copy i ≡ v
    → (i ≡ j → inside ≡ true)
    → (if leb (suc i) j && inside then copy j else update dest i v j)
      ≡ (if leb i j && inside then copy j else dest j)
copy_front i v copy dest j inside c h = elim (ℕ_discrete i j) [
  | yes e ↦ let c' : copy j ≡ v = rw e at c in rw (e, h e) (ground (arith, c'))
  | no e ↦ ground arith
]

-- From the source's end on, only NULs follow.
pad_same :
    (len : ℕ) (dest src : Bytes) (j : ℕ) (inside : Bool)
    → (if leb len j && inside then 0 else dest j)
      ≡ (if leb len j && inside then (if ltb j len then src j else 0) else dest j)
pad_same len dest src j inside = ground arith

copy_last :
    (i : ℕ) (dest src : Bytes) (j : ℕ)
    → src i ≡ 0
    → update dest i 0 j ≡ (if leb i j && leb j i then src j else dest j)
copy_last i dest src j z = elim (ℕ_discrete i j) [
  | yes e ↦ let z' : src j ≡ 0 = rw e at z in rw e (ground (arith, z'))
  | no e ↦ ground arith
]

strcpy_from_lem :
    (fuel n i : ℕ) (dest src : Bytes) (j : ℕ)
    → IsLength src n
    → i ≤ n
    → n < i + fuel
    → strcpy_from fuel dest src i j ≡ (if leb i j && leb j n then src j else dest j)
unfolding strcpy_from
strcpy_from_lem zero n i dest src j h le lt = absurd (omega arith)
strcpy_from_lem (suc fuel) n i dest src j h le lt = elim (ℕ_discrete i n) [
  | yes e ↦ rw (e, ==_yes (src n) 0 h.ends) (copy_last n dest src j h.ends)
  | no e ↦ rw (==_no (src i) 0 (h.before i (omega arith))) (
      strcpy_from_lem fuel n (suc i) (update dest i (src i)) src j h (omega arith) (omega arith)
      ∙ copy_front i (src i) src dest j (leb j n) refl (λ q. ground arith))
]

pad_from_lem :
    (rounds i : ℕ) (dest : Bytes) (j : ℕ)
    → pad_from rounds dest i j ≡ (if leb i j && ltb j (i + rounds) then 0 else dest j)
unfolding pad_from
pad_from_lem zero i dest j = ground arith
pad_from_lem (suc rounds) i dest j = ground (arith, pad_from_lem rounds (suc i) (update dest i 0) j)

-- `len` characters of `src` come before its NUL, or fill the `n` bytes.
pub record Cuts (src : Bytes) (n len : ℕ) : Type 0 where
  pub short : len ≤ n
  pub before : (i : ℕ) → i < len → src i ≢ 0
  pub ends : len < n → src len ≡ 0

strncpy_from_lem :
    (rounds n len i : ℕ) (dest src : Bytes) (j : ℕ)
    → Cuts src n len
    → i ≤ len
    → i + rounds ≡ n
    → strncpy_from rounds dest src i j
      ≡ (if leb i j && ltb j n then (if ltb j len then src j else 0) else dest j)
unfolding strncpy_from
strncpy_from_lem zero n len i dest src j h le e = ground arith
strncpy_from_lem (suc rounds) n len i dest src j h le e = elim (ℕ_discrete i len) [
  | yes q ↦
      let total : suc i + rounds ≡ n = omega arith in
      let nul : src i ≡ 0 = rw q (h.ends (omega arith)) in
      rw (==_yes (src i) 0 nul) (
        pad_from_lem rounds (suc i) (update dest i 0) j
        ∙ ap (λ a. if leb (suc i) j && ltb j a then 0 else update dest i 0 j) total
        ∙ copy_front i 0 (λ _. 0) dest j (ltb j n) refl (λ p. lt→ltb j n (omega arith))
        ∙ rw q (pad_same len dest src j (ltb j n)))
  | no q ↦ rw (==_no (src i) 0 (h.before i (omega arith))) (
      strncpy_from_lem rounds n len (suc i) (update dest i (src i)) src j h (omega arith)
        (omega arith)
      ∙ copy_front i (src i) (λ a. if ltb a len then src a else 0) dest j (ltb j n)
          (rw (lt→ltb i len (omega arith)) refl) (λ p. lt→ltb j n (omega arith)))
]

from_start :
    (j a b : ℕ) (inside : Bool) → (if leb 0 j && inside then a else b) ≡ (if inside then a else b)
from_start j a b inside = ground arith

-- `strcpy` copies the characters of the source and its NUL, if the source has fewer than 2^32
-- characters; `strncpy` copies at most `n` characters and fills up with NULs to `n` bytes, so that
-- a source of `n` or more characters leaves no NUL. All other bytes of the target are kept.
pub strcpy_lem :
    (dest src : Bytes) (n len : ℕ) (j : ℕ)
    → Cuts src n len
    → (IsLength src len → len < u32 → strcpy dest src j ≡ (if leb j len then src j else dest j))
      × (strncpy dest src n j ≡ (if ltb j n then (if ltb j len then src j else 0) else dest j))
unfolding strcpy strncpy
strcpy_lem dest src n len j h = (
  λ l fits.
      strcpy_from_lem u32 len 0 dest src j l zero-le fits
      ∙ from_start j (src j) (dest j) (leb j len),
  strncpy_from_lem n n len 0 dest src j h zero-le (omega arith)
      ∙ from_start j (if ltb j len then src j else 0) (dest j) (ltb j n),
)
