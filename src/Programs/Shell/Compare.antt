-- ===== src/Programs/Shell/Compare.antt =====
-- `ece391_strcmp` of syscalls/ece391support.c tells strings apart.
use Prim.Native.Nat.{zero-le}
use native.Mathlib.Decide.{ℕ_discrete}
use light_os_a_linus_like_os.Common.{
  ℕ, zero, suc, ◌+◌, ◌<◌, ◌≤◌, ◌≡◌, ◌≢◌, u32, pos, sub_ℕ, false, ◌==◌, ==_iff, Bool-cases, inl, inr,
  arith,
}
use light_os_a_linus_like_os.Memory.{Bytes}
use light_os_a_linus_like_os.CString.Length.{IsLength}
use light_os_a_linus_like_os.Programs.Shell.{strcmp_from, ece391_strcmp}

differ : (a b : ℕ) → (a == b) ≡ false → sub_ℕ a b ≢ pos 0
differ a b e = ground arith

strcmp_from-same :
    (fuel : ℕ) (s1 s2 : Bytes) (n i j : ℕ)
    → IsLength s1 n
    → i ≤ j
    → j ≤ n
    → n < i + fuel
    → strcmp_from fuel s1 s2 i ≡ pos 0
    → s1 j ≡ s2 j
unfolding strcmp_from
strcmp_from-same zero s1 s2 n i j h le small enough e = absurd (omega arith)
strcmp_from-same (suc fuel) s1 s2 n i j h le small enough e = elim (Bool-cases (s1 i == s2 i)) [
  | inr f ↦ absurd (differ (s1 i) (s2 i) f (rw f at e))
  | inl f ↦ elim (ℕ_discrete i j) [
    | yes q ↦ rw (← q) ((==_iff (s1 i) (s2 i)).0 f)
    | no q ↦ elim (Bool-cases (s1 i == 0)) [
      | inl g ↦ absurd (h.before i (omega arith) ((==_iff (s1 i) 0).0 g))
      | inr g ↦
          strcmp_from-same fuel s1 s2 n (suc i) j h (omega arith) small (omega arith)
            (rw (f, g) at e)
    ]
  ]
]

-- Strings that differ before the end of the first, or there, do not compare as equal.
pub ece391_strcmp-differ :
    (s1 s2 : Bytes) (n j : ℕ)
    → IsLength s1 n
    → n < u32
    → j ≤ n
    → s1 j ≢ s2 j
    → ece391_strcmp s1 s2 ≢ pos 0
unfolding ece391_strcmp
ece391_strcmp-differ s1 s2 n j h small le ne e =
    ne (strcmp_from-same u32 s1 s2 n 0 j h zero-le le (omega arith) e)
