-- ===== src/Descriptors/Open.antt =====
-- `file_descriptor_table_open`: which descriptor it takes, and what its failures leave behind.
use native.Mathlib.Decide.{ℕ_discrete, dec_lt}
use light_os_a_linus_like_os.Common.{
  ℕ, ap, sym, zero, suc, ◌+◌, ◌≤◌, ◌<◌, ◌≡◌, refl, ◌≢◌, inl, inr, ◌∙◌, ℤ, pos, failure, to_int32,
  Option, none, some, true, false, Bool-cases, length, length-set, get_or-set_self, get_or-set_ne,
  ◌==◌, ==_iff, is_failure, leb, arith,
}
use light_os_a_linus_like_os.Memory.{Bytes}
use light_os_a_linus_like_os.Kernel.{Pcb, FileOps, FileDescriptor, ece391_file_ops, ece391_dir_ops}
use light_os_a_linus_like_os.FileSystem.{DirEntry, read_dentry_by_name}
use light_os_a_linus_like_os.FileSystem.Ops.{file_close}
use light_os_a_linus_like_os.Descriptors.{
  descriptor, closed, set_descriptor, mark_used, install, find_free, file_descriptor_table_open,
  file_descriptor_table_close,
}

-- The array has its 8 entries.
abbrev pub IsTable : Pcb → Type 0
IsTable p = length p.file_descriptor_array ≡ 8

-- `n` is the first of the descriptors from `lo` on that is not in use, or 8 if all are.
pub record IsFirstFree (p : Pcb) (lo n : ℕ) : Type 0 where
  pub low : lo ≤ n
  pub high : n ≤ 8
  pub used : (i : ℕ) → lo ≤ i → i < n → (descriptor p i).flags ≡ 1
  pub free : n < 8 → (descriptor p n).flags ≢ 1

find_free-IsFirstFree :
    (rounds lo : ℕ) (p : Pcb) → lo + rounds ≡ 8 → IsFirstFree p lo (find_free rounds lo p)
unfolding find_free
find_free-IsFirstFree zero lo p e = record {
  low = omega arith;
  high = omega arith;
  used = λ i a b. absurd (omega arith);
  free = λ h. absurd (omega arith);
}
find_free-IsFirstFree (suc rounds) lo p e =
    let ih = find_free-IsFirstFree rounds (suc lo) p (omega arith) in
    elim (Bool-cases ((descriptor p lo).flags == 1)) [
      | inl f ↦ rw f (record {
        low = omega (arith, ih.low);
        high = ih.high;
        used = λ i a b. elim (ℕ_discrete lo i) [
          | yes q ↦ rw (← q) ((==_iff _ 1).0 f)
          | no q ↦ ih.used i (omega arith) b
        ];
        free = ih.free;
      })
      | inr f ↦ rw f (record {
        low = omega arith;
        high = omega arith;
        used = λ i a b. absurd (omega arith);
        free = λ h. ground arith;
      })
    ]

IsFirstFree-unique : (p : Pcb) (m n : ℕ) → IsFirstFree p 2 m → IsFirstFree p 2 n → m ≡ n
IsFirstFree-unique p m n a b = ground (arith, a.used n, b.used m)

find_free-eq : (p : Pcb) (n : ℕ) → IsFirstFree p 2 n → find_free 6 2 p ≡ n
find_free-eq p n h = IsFirstFree-unique p _ n (find_free-IsFirstFree 6 2 p refl) h

pub descriptor-set_self :
    (p : Pcb) (i : ℕ) (d : FileDescriptor)
    → IsTable p
    → i < 8
    → descriptor (set_descriptor i d p) i ≡ d
descriptor-set_self p i d t h =
    get_or-set_self p.file_descriptor_array i d (closed none) (omega arith)

pub descriptor-set_ne :
    (p : Pcb) (i j : ℕ) (d : FileDescriptor)
    → i ≢ j
    → descriptor (set_descriptor i d p) j ≡ descriptor p j
descriptor-set_ne p i j d h = get_or-set_ne p.file_descriptor_array i j d (closed none) h

pub set_descriptor-IsTable :
    (p : Pcb) (i : ℕ) (d : FileDescriptor) → IsTable p → IsTable (set_descriptor i d p)
set_descriptor-IsTable p i d t = length-set p.file_descriptor_array i d ∙ t

mark_used-below :
    (p : Pcb) (n : ℕ)
    → n < 8
    → mark_used n p ≡ set_descriptor n (record (descriptor p n) { flags = 1 }) p
mark_used-below p n h = let e : (n == 8) ≡ false = ground arith in rw e

-- What `install` makes of a descriptor.
abbrev opened : FileOps → DirEntry → FileDescriptor → FileDescriptor
opened ops entry d = record d {
  file_ops = some ops;
  inode = to_int32 entry.inode_num;
  file_pos = 0;
}

-- What opening an entry leaves: descriptor `n` stands for it, and no other has changed.
abbrev pub IsOpened : FileOps → DirEntry → ℕ → Pcb → ℤ × Pcb → Type 0
IsOpened ops entry n p (result, p') =
    (result ≡ pos n)
    × (descriptor p' n
        ≡ record { file_ops = some ops; inode = to_int32 entry.inode_num; file_pos = 0; flags = 1 })
    × ((i : ℕ) → i ≢ n → descriptor p' i ≡ descriptor p i)
    × IsTable p'

open_found :
    (boot filename : Option Bytes) (ops : FileOps) (p : Pcb) (n : ℕ) (entry : DirEntry)
    → IsTable p
    → IsFirstFree p 2 n
    → n < 8
    → read_dentry_by_name boot filename ≡ some entry
    → ((q : Pcb) → install n entry q ≡ set_descriptor n (opened ops entry (descriptor q n)) q)
    → IsOpened ops entry n p (file_descriptor_table_open boot filename p)
unfolding file_descriptor_table_open
open_found boot filename ops p n entry t f h e installs =
    let e8 : (n == 8) ≡ false = ground arith in
    let d = descriptor p n in
    let d1 : FileDescriptor = record d { flags = 1 } in
    let p1 = set_descriptor n d1 p in
    let t1 = set_descriptor-IsTable p n d1 t in
    let d2 = opened ops entry (descriptor p1 n) in
    rw (find_free-eq p n f, e8, e, installs p1)
      (
        refl,
        descriptor-set_self p1 n d2 t1 h ∙ ap (opened ops entry) (descriptor-set_self p n d1 t h),
        λ i ne.
            descriptor-set_ne p1 n i d2 (λ q. ne (sym q))
            ∙ descriptor-set_ne p n i d1 (λ q. ne (sym q)),
        set_descriptor-IsTable p1 n d2 t1,
      )

-- Opening an existing file takes the first descriptor from 2 on that is not in use, whose number
-- it returns: it then reads that file from the start, and no other descriptor changes.
pub open_file :
    (boot filename : Option Bytes) (p : Pcb) (n : ℕ) (entry : DirEntry)
    → IsTable p
    → IsFirstFree p 2 n
    → n < 8
    → read_dentry_by_name boot filename ≡ some entry
    → entry.filetype ≡ 2
    → IsOpened ece391_file_ops entry n p (file_descriptor_table_open boot filename p)
unfolding install
open_file boot filename p n entry t f h e ty =
    open_found boot filename ece391_file_ops p n entry t f h e (λ q. rw ty refl)

-- The same for a directory.
pub open_directory :
    (boot filename : Option Bytes) (p : Pcb) (n : ℕ) (entry : DirEntry)
    → IsTable p
    → IsFirstFree p 2 n
    → n < 8
    → read_dentry_by_name boot filename ≡ some entry
    → entry.filetype ≡ 1
    → IsOpened ece391_dir_ops entry n p (file_descriptor_table_open boot filename p)
unfolding install
open_directory boot filename p n entry t f h e ty =
    open_found boot filename ece391_dir_ops p n entry t f h e (λ q. rw ty refl)

-- With all six descriptors from 2 on in use, the call fails, and it writes 1 behind the table:
-- the saved frame pointer of the process is lost. Nothing else changes.
pub open_full :
    (boot filename : Option Bytes) (p : Pcb)
    → ((i : ℕ) → 2 ≤ i → i < 8 → (descriptor p i).flags ≡ 1)
    → file_descriptor_table_open boot filename p ≡ (failure, record p { current_ebp = 1 })
unfolding file_descriptor_table_open
open_full boot filename p used = rw (
    find_free-eq p 8 (record {
      low = omega arith;
      high = omega arith;
      used = used;
      free = λ h. absurd (omega arith);
    }))

-- Once its first free descriptor is in use, a table's first free descriptor stands behind it.
IsFirstFree-later :
    (p : Pcb) (n m : ℕ)
    → IsTable p
    → IsFirstFree p 2 n
    → n < 8
    → IsFirstFree (set_descriptor n (record (descriptor p n) { flags = 1 }) p) 2 m
    → n < m
IsFirstFree-later p n m t f h g = elim (dec_lt n m) [
  | yes q ↦ q
  | no q ↦ elim (ℕ_discrete n m) [
    | yes r ↦ absurd (
        g.free (omega arith)
          (rw (← r) (ap (λ (c : FileDescriptor). c.flags) (descriptor-set_self p n d1 t h))))
    | no r ↦ absurd (
        g.free (omega arith) (
          ap (λ (c : FileDescriptor). c.flags) (descriptor-set_ne p n m d1 r)
          ∙ f.used m g.low (omega arith)))
  ]
]
  where
    d1 : FileDescriptor
    d1 = record (descriptor p n) { flags = 1 }

-- Opening a name that is not there fails, but keeps the descriptor it looked at in use; and since
-- that descriptor names no inode, closing it fails and does not give it
-- back: the next call starts its search behind it.
pub open_missing :
    (boot filename : Option Bytes) (p : Pcb) (n : ℕ)
    → IsTable p
    → IsFirstFree p 2 n
    → n < 8
    → (descriptor p n).inode ≡ failure
    → read_dentry_by_name boot filename ≡ none
    → let (result, p') = file_descriptor_table_open boot filename p in
      (result ≡ failure)
      × ((descriptor p' n).flags ≡ 1)
      × (file_descriptor_table_close (pos n) p' ≡ (failure, p'))
      × ((m : ℕ) → IsFirstFree p' 2 m → n < m)
unfolding file_descriptor_table_open file_descriptor_table_close file_close
open_missing boot filename p n t f h no_inode e =
    let e8 : (n == 8) ≡ false = ground arith in
    let d = descriptor p n in
    let d1 : FileDescriptor = record d { flags = 1 } in
    let p1 = set_descriptor n d1 p in
    let self = descriptor-set_self p n d1 t h in
    let in_table : leb 8 n ≡ false = ground arith in
    let refused : is_failure (descriptor p1 n).inode ≡ true = rw self (rw no_inode) in
    rw (find_free-eq p n f, e8, e)
      (
        refl,
        ap (λ (c : FileDescriptor). c.flags) self,
        rw (in_table, refused),
        λ m g. IsFirstFree-later p n m t f h g,
      )
