-- ===== src/Process/Pool/Free.antt =====
-- The process pool: which slot a claim takes, and that a release gives it back.
use Prim.Native.Nat.{zero-le}
use light_os_a_linus_like_os.Common.{
  Option, none, ℕ, zero, suc, ◌+◌, ◌≤◌, ◌<◌, ◌≡◌, refl, ◌≢◌, pos, none, some, List, get_or, set,
  length, ◌==◌, leb, ap, sym, ◌∙◌, set-set, arith, Bool-cases, inl, inr, length-set,
  get_or-set_self, get_or-set_ne,
}
use light_os_a_linus_like_os.Kernel.{Kernel}
use light_os_a_linus_like_os.Process.Pool.{free_from, claim, get_process_available, release_process}

-- Slot `i` is the first of the slots from `start` on that is free.
abbrev pub IsFirst : ℕ → List ℕ → ℕ → Type 0
IsFirst start processes i =
    (start ≤ i)
    × (get_or processes i 1 ≡ 0)
    × ((j : ℕ) → start ≤ j → j < i → get_or processes j 1 ≢ 0)

free_from-IsFirst :
    (rounds start : ℕ)
    → (processes : List ℕ) → (i : ℕ) → IsFirst start processes i
    → i < start + rounds
    → free_from rounds start processes ≡ some i
unfolding free_from
free_from-IsFirst zero start processes i (a, b, c) l = ground arith
free_from-IsFirst (suc rounds) start processes i (a, b, c) l = elim (Bool-cases (start == i)) [
  | inl e ↦ ground arith
  | inr e ↦ ground (arith, c start, free_from-IsFirst rounds (suc start) processes i)
]

free_from-none :
    (rounds start : ℕ)
    → (processes : List ℕ) → ((j : ℕ) → start ≤ j → j < start + rounds → get_or processes j 1 ≢ 0)
    → free_from rounds start processes ≡ none
unfolding free_from
free_from-none zero start processes h = refl
free_from-none (suc rounds) start processes h = ground (
  arith,
  h start,
  free_from-none rounds (suc start) processes (λ j a b. h j (omega arith) (omega arith)),
)

-- `get_process_available` marks and returns the first free slot of the seven when one is free;
-- with none free it returns -1 and changes nothing.
pub get_process_available_lem :
    (k : Kernel)
    → ((i : ℕ)
        → IsFirst 0 k.processes i
        → i < 7
        → get_process_available k ≡ (some i, record k { processes = set k.processes i 1 }))
      × (((j : ℕ) → j < 7 → get_or k.processes j 1 ≢ 0) → get_process_available k ≡ (none, k))
unfolding get_process_available
get_process_available_lem k = (
  λ i h l. ap (λ o. claim o k) (free_from-IsFirst 7 0 k.processes i h l),
  λ h. ap (λ o. claim o k) (free_from-none 7 0 k.processes (λ j a b. h j b)),
)

earlier :
    (processes : List ℕ) (i j : ℕ)
    → j < i
    → get_or (set (set processes i 1) i 0) j 1 ≡ get_or processes j 1
earlier processes i j y =
    get_or-set_ne (set processes i 1) i j 0 1 (omega arith)
    ∙ get_or-set_ne processes i j 1 1 (omega arith)

-- The slot that a claim and a release left is the first free one.
released-IsFirst :
    (processes : List ℕ) (i : ℕ)
    → i < length processes
    → IsFirst 0 processes i
    → IsFirst 0 (set (set processes i 1) i 0) i
released-IsFirst processes i l (a, b, c) = (
  zero-le,
  get_or-set_self (set processes i 1) i 0 1 (rw (length-set processes i 1) l),
  λ j x y e. c j x y (sym (earlier processes i j y) ∙ e),
)

-- A slot that was claimed and is then released is free again: the release succeeds, and the next
-- claim returns the slot and leaves the pool as the first one did.
pub claim_release_claim :
    (k : Kernel) (i : ℕ)
    → length k.processes ≡ 7
    → IsFirst 0 k.processes i
    → i < 7
    → let k1 = (get_process_available k).1 in
      let k2 = (release_process (pos i) k1).1 in
      (get_process_available k2 ≡ (some i, k1)) × ((release_process (pos i) k1).0 ≡ pos 0)
unfolding release_process get_process_available
claim_release_claim k i n h l =
    rw ((get_process_available_lem k).0 i h l) (elim (Bool-cases (leb 7 i)) [
      | inl e ↦ ground arith
      | inr e ↦ rw e (
        (get_process_available_lem (record k { processes = set (set k.processes i 1) i 0 })).0 i
              (released-IsFirst k.processes i (omega arith) h) l
            ∙ ap (λ ps. (some i, record k { processes = ps }))
                (set-set (set k.processes i 1) i 0 1 ∙ set-set k.processes i 1 1),
        refl,
      )
    ])

free_from-free :
    (rounds start : ℕ) (processes : List ℕ) (i : ℕ)
    → free_from rounds start processes ≡ some i
    → get_or processes i 1 ≡ 0
unfolding free_from
free_from-free zero start processes i h = ground arith
free_from-free (suc rounds) start processes i h =
    elim (Bool-cases (get_or processes start 1 == 0)) [
      | inl e ↦ ground arith
      | inr e ↦ free_from-free rounds (suc start) processes i (rw e at h)
    ]

claim-result : (o : Option ℕ) (k : Kernel) → (claim o k).0 ≡ o
claim-result none k = refl
claim-result (some i) k = refl

-- A slot that is claimed was free.
pub get_process_available-free :
    (k : Kernel) (i : ℕ) → (get_process_available k).0 ≡ some i → get_or k.processes i 1 ≡ 0
unfolding get_process_available
get_process_available-free k i h =
    free_from-free 7 0 k.processes i (sym (claim-result (free_from 7 0 k.processes) k) ∙ h)
