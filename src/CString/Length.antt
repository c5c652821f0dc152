-- ===== src/CString/Length.antt =====
-- `strlen` finds the first NUL.
use Prim.Native.Nat.{zero-le}
use native.Mathlib.Decide.{ℕ_discrete}
use light_os_a_linus_like_os.Common.{
  ℕ, zero, suc, ◌+◌, ◌≤◌, ◌<◌, ◌≡◌, ◌≢◌, true, false, u32, ◌==◌, arith, Bool-cases, inl, inr,
  ==_iff,
}
use light_os_a_linus_like_os.Memory.{Bytes}
use light_os_a_linus_like_os.CString.{strlen_from, strlen}

-- The first NUL of `s` is at index `n`.
pub record IsLength (s : Bytes) (n : ℕ) : Type 0 where
  pub ends : s n ≡ 0
  pub before : (i : ℕ) → i < n → s i ≢ 0

strlen_from_lem :
    (fuel : ℕ) (s : Bytes) (len n : ℕ)
    → IsLength s n
    → len ≤ n
    → n < len + fuel
    → strlen_from fuel s len ≡ n
unfolding strlen_from
strlen_from_lem zero s len n h le lt = absurd (omega arith)
strlen_from_lem (suc fuel) s len n h le lt =
    ground (arith, h.before len, h.ends, strlen_from_lem fuel s (suc len) n h)

-- `strlen` counts the bytes before the first NUL, in a string of less than 2^32 bytes.
pub strlen-IsLength : (s : Bytes) (n : ℕ) → IsLength s n → n < u32 → strlen s ≡ n
unfolding strlen
strlen-IsLength s n h lt = strlen_from_lem u32 s 0 n h zero-le lt

strlen_from-before :
    (fuel : ℕ) (s : Bytes) (len i : ℕ) → len ≤ i → i < strlen_from fuel s len → s i ≢ 0
unfolding strlen_from
strlen_from-before zero s len i le lt = absurd (omega arith)
strlen_from-before (suc fuel) s len i le lt = elim (Bool-cases (s len == 0)) [
  | inl e ↦ absurd (stop e)
  | inr e ↦ elim (ℕ_discrete len i) [
    | yes p ↦ rw (← p) (ne e)
    | no p ↦ strlen_from-before fuel s (suc len) i (omega arith) (rw e at lt)
  ]
]
  where
    stop : (s len == 0) ≡ true → ⊥
    stop e = ground arith

    ne : (s len == 0) ≡ false → s len ≢ 0
    ne e = ground arith

strlen_from-ends :
    (fuel : ℕ) (s : Bytes) (len : ℕ)
    → strlen_from fuel s len < len + fuel
    → s (strlen_from fuel s len) ≡ 0
unfolding strlen_from
strlen_from-ends zero s len lt = absurd (omega arith)
strlen_from-ends (suc fuel) s len lt = elim (Bool-cases (s len == 0)) [
  | inl e ↦ rw e ((==_iff (s len) 0).0 e)
  | inr e ↦ rw e (strlen_from-ends fuel s (suc len) (ground arith))
]

pub IsLength-strlen : (s : Bytes) → strlen s < u32 → IsLength s (strlen s)
unfolding strlen
IsLength-strlen s lt = record {
  ends = strlen_from-ends u32 s 0 lt;
  before = λ i. strlen_from-before u32 s 0 i zero-le;
}
