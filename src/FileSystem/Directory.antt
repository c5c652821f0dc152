-- ===== src/FileSystem/Directory.antt =====
-- `read_dentry_by_name` finds the first entry with the name.
use native.Mathlib.Decide.{ℕ_discrete}
use native.Mathlib.Nat.{le_refl}
use mathlib.Core.Path.{subst}
use light_os_a_linus_like_os.Common.{
  ℕ, zero, suc, ◌+◌, ◌≤◌, ◌<◌, ◌≡◌, ◌⊎◌, inl, inr, Option, none, some, Bool, true, false, ◌==◌,
  arith, Bool-cases, refl,
}
use light_os_a_linus_like_os.Memory.{Bytes}
use light_os_a_linus_like_os.CString.Length.{IsLength, strlen-IsLength, IsLength-strlen}
use light_os_a_linus_like_os.CString.Compare.{IsBytes, Agree, strncmp-agree, strncmp-differ}
use light_os_a_linus_like_os.FileSystem.{
  DirEntry, direntry, entry_matches, find_from, read_dentry_by_name,
}

-- The 32 bytes of the entry hold the name of `n` characters: padded by a NUL, or filling them.
pub record IsNamed (fname : Bytes) (n : ℕ) (entry : DirEntry) : Type 0 where
  pub same : Agree fname entry.filename n
  pub stops : n < 32 → entry.filename n ≡ 0

-- What a search of the entries from `lo` up to `hi` is to return: the first one with the name.
abbrev pub Finds : Bytes → Bytes → ℕ → ℕ → ℕ → Option DirEntry → Type 0
Finds image fname n lo hi result =
    ((result ≡ none) × ((i : ℕ) → lo ≤ i → i < hi → ¬ IsNamed fname n (direntry image i)))
    ⊎ ((i : ℕ) × (lo ≤ i)
        × (i < hi)
        × IsNamed fname n (direntry image i)
        × ((j : ℕ) → lo ≤ j → j < i → ¬ IsNamed fname n (direntry image j))
        × (result ≡ some (direntry image i)))

-- One step back: the entry at `lo` does not have the name.
Finds-skip :
    (image fname : Bytes) (n lo hi : ℕ) (result : Option DirEntry)
    → ¬ IsNamed fname n (direntry image lo)
    → Finds image fname n (suc lo) hi result
    → Finds image fname n lo hi result
Finds-skip image fname n lo hi result no_lo (inl (e, all)) =
    inl
      (e, λ i p q. elim (ℕ_discrete lo i) [ yes r ↦ rw (← r) no_lo | no r ↦ all i (omega arith) q ])
Finds-skip image fname n lo hi result no_lo (inr (i, p, q, named, before, e)) = inr (
  i,
  omega arith,
  q,
  named,
  (λ j r t. elim (ℕ_discrete lo j) [ yes u ↦ rw (← u) no_lo | no u ↦ before j (omega arith) t ]),
  e,
)

differs : {b : Bool} → b ≡ false → b ≡ true → ⊥
differs p q = cc

module _ (fname : Bytes) (n : ℕ) (h : IsLength fname n) (small : n ≤ 32)
    (bytes : IsBytes fname) where
  entry_matches-IsNamed :
      (entry : DirEntry)
      → IsBytes entry.filename
      → entry_matches fname n entry ≡ true
      → IsNamed fname n entry
  unfolding entry_matches
  entry_matches-IsNamed entry eb e = record {
    same = ground (arith, strncmp-differ fname entry.filename n bytes eb h.before);
    stops = λ lt. ground (arith, IsLength-strlen entry.filename);
  }

  IsNamed-entry_matches :
      (entry : DirEntry) → IsNamed fname n entry → entry_matches fname n entry ≡ true
  unfolding entry_matches
  IsNamed-entry_matches entry named = ground (
    arith,
    strncmp-agree fname entry.filename n named.same,
    named.stops,
    strlen-IsLength entry.filename n,
  )

  find_from_lem :
      (rounds : ℕ) (image : Bytes) (index : ℕ)
      → IsBytes image
      → Finds image fname n index (index + rounds) (find_from rounds image fname n index)
  unfolding find_from
  find_from_lem zero image index ib = inl (refl, λ i p q. absurd (omega arith))
  find_from_lem (suc rounds) image index ib =
      let entry = direntry image index in
      elim (Bool-cases (entry_matches fname n entry)) [
        | inl e ↦ rw e (
            inr (
              index,
              le_refl index,
              omega arith,
              entry_matches-IsNamed entry (λ i. ib _) e,
              λ j p q. absurd (omega arith),
              refl,
            ))
        | inr e ↦ rw e (
            Finds-skip image fname n index (index + suc rounds) _
              (λ named. differs e (IsNamed-entry_matches entry named))
              (subst
                (λ hi.
                  Finds image fname n (suc index) hi (find_from rounds image fname n (suc index)))
                (omega arith) (find_from_lem rounds image (suc index) ib)))
      ]

-- With the boot block in place and a name of 1 to 32 characters, `read_dentry_by_name` returns
-- the first of the 63 entries whose 32-byte name field holds exactly that name, and -1 if no
-- entry does.
pub read_dentry_by_name-Finds :
    (image fname : Bytes) (n : ℕ)
    → IsLength fname n
    → 0 < n
    → n ≤ 32
    → IsBytes fname
    → IsBytes image
    → Finds image fname n 0 63 (read_dentry_by_name (some image) (some fname))
unfolding read_dentry_by_name
read_dentry_by_name-Finds image fname n h full small fb ib =
    let e : (n == 0) ≡ false = ground arith in
    rw (strlen-IsLength fname n h (omega arith), e) (find_from_lem fname n h small fb 63 image 0 ib)
