-- ===== src/Descriptors/Close.antt =====
-- Closing a descriptor, and reading one that is closed.
use light_os_a_linus_like_os.Common.{
  ℕ, ◌<◌, ◌≡◌, refl, ◌≢◌, inl, inr, ap, Bool-cases, ℤ, pos, failure, is_failure, Option, none,
  false, leb, arith,
}
use light_os_a_linus_like_os.Memory.{Bytes}
use light_os_a_linus_like_os.Kernel.{Pcb, FileDescriptor}
use light_os_a_linus_like_os.FileSystem.Ops.{file_close}
use light_os_a_linus_like_os.Descriptors.{
  descriptor, closed, set_descriptor, Drivers, file_descriptor_table_close,
  file_descriptor_table_read, file_descriptor_table_write,
}
use light_os_a_linus_like_os.Descriptors.Open.{IsTable, descriptor-set_self, descriptor-set_ne}

not_failure : (z : ℤ) → z ≢ failure → is_failure z ≡ false
not_failure z h = ground arith

closed_transfers :
    {S : Type 0} (drivers : Drivers S) (p : Pcb) (i : ℕ) (buf : Option Bytes) (len : ℤ) (s : S)
    → descriptor p i ≡ closed none
    → (file_descriptor_table_read drivers (pos i) buf len p s ≡ (s, p, failure, buf))
      × (file_descriptor_table_write drivers (pos i) buf len p s ≡ (s, p, failure, buf))
unfolding file_descriptor_table_read file_descriptor_table_write
closed_transfers drivers p i buf len s e =
    let none_there : (descriptor p i).file_ops ≡ none = ap (λ (d : FileDescriptor). d.file_ops) e in
    elim (Bool-cases (leb 8 i)) [
      | inl f ↦ (rw f, rw f)
      | inr f ↦ (rw (f, none_there), rw (f, none_there))
    ]

-- Closing a descriptor that names an inode succeeds: it is as the table's set-up leaves the
-- descriptors from 2 on, no other descriptor changes, and neither a read nor a write of it
-- reaches a driver any more.
pub close_lem :
    {S : Type 0} (drivers : Drivers S) (p : Pcb) (i : ℕ) (buf : Option Bytes) (len : ℤ) (s : S)
    → IsTable p
    → i < 8
    → (descriptor p i).inode ≢ failure
    → let (result, p') = file_descriptor_table_close (pos i) p in
      (result ≡ pos 0)
      × (descriptor p' i ≡ closed none)
      × ((j : ℕ) → i ≢ j → descriptor p' j ≡ descriptor p j)
      × (file_descriptor_table_read drivers (pos i) buf len p' s ≡ (s, p', failure, buf))
      × (file_descriptor_table_write drivers (pos i) buf len p' s ≡ (s, p', failure, buf))
unfolding file_descriptor_table_close file_close
close_lem drivers p i buf len s t h named =
    let e8 : leb 8 i ≡ false = ground arith in
    let e : is_failure (descriptor p i).inode ≡ false = not_failure (descriptor p i).inode named in
    let self = descriptor-set_self p i (closed none) t h in
    rw (e8, e)
      (
        refl,
        self,
        λ j ne. descriptor-set_ne p i j (closed none) ne,
        (closed_transfers drivers (set_descriptor i (closed none) p) i buf len s self).0,
        (closed_transfers drivers (set_descriptor i (closed none) p) i buf len s self).1,
      )
