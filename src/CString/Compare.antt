-- ===== src/CString/Compare.antt =====
-- `strncmp` compares up to `n` bytes, or up to the first NUL that both strings have.
use native.Mathlib.Decide.{ℕ_discrete}
use light_os_a_linus_like_os.Common.{ℕ, ◌↔◌, zero, suc, ◌+◌, ◌≤◌, ◌<◌, ◌≡◌, ◌≢◌, pos, arith}
use light_os_a_linus_like_os.Memory.{Bytes}
use light_os_a_linus_like_os.CString.{strncmp_from, strncmp}

-- Every cell holds a byte.
abbrev pub IsBytes : Bytes → Type 0
IsBytes m = (i : ℕ) → m i < 256

-- The strings agree from `i` up to `n`.
abbrev pub Agree : Bytes → Bytes → ℕ → Type 0
Agree s1 s2 n = (i : ℕ) → i < n → s1 i ≡ s2 i

strncmp_from-agree :
    (rounds : ℕ) (s1 s2 : Bytes) (i : ℕ)
    → ((j : ℕ) → i ≤ j → j < i + rounds → s1 j ≡ s2 j)
    → strncmp_from rounds s1 s2 i ≡ pos 0
unfolding strncmp_from
strncmp_from-agree zero s1 s2 i h = ground arith
strncmp_from-agree (suc rounds) s1 s2 i h = ground (
  arith,
  h i (omega arith) (omega arith),
  strncmp_from-agree rounds s1 s2 (suc i) (λ j p q. h j (omega arith) (omega arith)),
)

-- The converse, for strings with no NUL before the end.
strncmp_from-differ :
    (rounds : ℕ) (s1 s2 : Bytes) (i j : ℕ)
    → IsBytes s1
    → IsBytes s2
    → ((k : ℕ) → k < i + rounds → s1 k ≢ 0)
    → strncmp_from rounds s1 s2 i ≡ pos 0
    → i ≤ j
    → j < i + rounds
    → s1 j ≡ s2 j
unfolding strncmp_from
strncmp_from-differ zero s1 s2 i j b1 b2 nz h p q = absurd (omega arith)
strncmp_from-differ (suc rounds) s1 s2 i j b1 b2 nz h p q = elim (ℕ_discrete i j) [
  | yes e ↦ rw (← e) (here)
  | no e ↦
      strncmp_from-differ rounds s1 s2 (suc i) j b1 b2 (λ k r. nz k (omega arith))
        (ground (arith, b1 i, b2 i, nz i (omega arith))) (omega arith) (omega arith)
]
  where
    here : s1 i ≡ s2 i
    here = ground (arith, b1 i, b2 i)

pub strncmp-agree : (s1 s2 : Bytes) (n : ℕ) → Agree s1 s2 n → strncmp s1 s2 n ≡ pos 0
unfolding strncmp
strncmp-agree s1 s2 n h = strncmp_from-agree n s1 s2 0 (λ j p q. h j (omega arith))

pub strncmp-differ :
    (s1 s2 : Bytes) (n : ℕ)
    → IsBytes s1
    → IsBytes s2
    → ((k : ℕ) → k < n → s1 k ≢ 0)
    → strncmp s1 s2 n ≡ pos 0
    → Agree s1 s2 n
unfolding strncmp
strncmp-differ s1 s2 n b1 b2 nz h j q =
    strncmp_from-differ n s1 s2 0 j b1 b2 (λ k r. nz k (omega arith)) h (omega arith) (omega arith)

-- Of two strings of which the first has no NUL among its first `n` bytes, `strncmp` gives 0
-- exactly if their first `n` bytes agree.
pub strncmp_lem :
    (s1 s2 : Bytes) (n : ℕ)
    → IsBytes s1
    → IsBytes s2
    → ((k : ℕ) → k < n → s1 k ≢ 0)
    → (strncmp s1 s2 n ≡ pos 0) ↔ Agree s1 s2 n
strncmp_lem s1 s2 n b1 b2 nz = (strncmp-differ s1 s2 n b1 b2 nz, strncmp-agree s1 s2 n)
