-- ===== src/Tests/Descriptors.antt =====
-- Examples for the descriptors.
use light_os_a_linus_like_os.Common.{
  ℕ, zero, suc, ◌+◌, replicate, ◌∷◌, ◌<◌, ◌≤◌, ◌≡◌, refl, ◌≢◌, pos, failure, some, none, arith,
}
use light_os_a_linus_like_os.Kernel.{Pcb, ece391_file_ops}
use light_os_a_linus_like_os.FileSystem.{direntry, read_dentry_by_name}
use light_os_a_linus_like_os.Descriptors.{
  descriptor, closed, file_descriptor_table_open, file_descriptor_table_close, Drivers,
  file_descriptor_table_read, file_descriptor_table_write,
}
use light_os_a_linus_like_os.Descriptors.Open.{
  IsTable, IsFirstFree, open_file, open_full, open_missing,
}
use light_os_a_linus_like_os.Descriptors.Close.{close_lem}
use light_os_a_linus_like_os.Process.Execute.Checks.{}
use light_os_a_linus_like_os.Tests.Files.{name_found}
use light_os_a_linus_like_os.Tests.{zeros, image, name, process, unused, used}

IsFirstFree-two : IsFirstFree (process 1) 2 2
IsFirstFree-two = record {
  low = omega arith;
  high = omega arith;
  used = λ i a b. absurd (omega arith);
  free = λ h. omega arith;
}

open_file_example :
    let (result, p') = file_descriptor_table_open (some image) (some name) (process 1) in
    (result ≡ pos 2)
    × (descriptor p' 2
        ≡ record { file_ops = some ece391_file_ops; inode = pos 1; file_pos = 0; flags = 1 })
    × ((i : ℕ) → i ≢ 2 → descriptor p' i ≡ descriptor (process 1) i)
    × IsTable p'
open_file_example =
    open_file (some image) (some name) (process 1) 2 (direntry image 1) refl IsFirstFree-two
      (omega arith) name_found refl

-- A process all of whose descriptors are in use.
abbrev busy : Pcb
busy = let p = process 1 in record p { file_descriptor_array = replicate 8 used }

busy-used : (i : ℕ) → 2 ≤ i → i < 8 → (descriptor busy i).flags ≡ 1
busy-used zero a b = omega arith
busy-used (suc zero) a b = omega arith
busy-used (suc (suc zero)) a b = refl
busy-used (suc (suc (suc zero))) a b = refl
busy-used (suc (suc (suc (suc zero)))) a b = refl
busy-used (suc (suc (suc (suc (suc zero))))) a b = refl
busy-used (suc (suc (suc (suc (suc (suc zero)))))) a b = refl
busy-used (suc (suc (suc (suc (suc (suc (suc zero))))))) a b = refl
busy-used (suc (suc (suc (suc (suc (suc (suc (suc i)))))))) a b = absurd (omega arith)

open_full_example :
    file_descriptor_table_open (some image) (some name) busy
    ≡ (failure, record busy { current_ebp = 1 })
open_full_example = open_full (some image) (some name) busy busy-used

no_name : read_dentry_by_name (some image) none ≡ none
unfolding read_dentry_by_name
no_name = refl

open_missing_example :
    let (result, p') = file_descriptor_table_open (some image) none (process 1) in
    (result ≡ failure)
    × ((descriptor p' 2).flags ≡ 1)
    × (file_descriptor_table_close (pos 2) p' ≡ (failure, p'))
    × ((m : ℕ) → IsFirstFree p' 2 m → 2 < m)
open_missing_example =
    open_missing (some image) none (process 1) 2 refl IsFirstFree-two (omega arith) refl no_name

-- A process that has the file open, and drivers that count their calls.
abbrev reader : Pcb
reader =
    let p = process 1 in
    record p {
      file_descriptor_array = used ∷ used ∷ record used { inode = pos 1 } ∷ replicate 5 unused;
    }

abbrev counting : Drivers ℕ
counting = record {
  read = λ ops inode buf len offset s. (s + 1, pos 0, buf, offset);
  write = λ ops inode buf len offset s. (s + 1, pos 0, buf, offset);
}

pos≢failure : (descriptor reader 2).inode ≢ failure
pos≢failure e = ground arith

close_lem_example :
    let (result, p') = file_descriptor_table_close (pos 2) reader in
    (result ≡ pos 0)
    × (descriptor p' 2 ≡ closed none)
    × ((j : ℕ) → 2 ≢ j → descriptor p' j ≡ descriptor reader j)
    × (file_descriptor_table_read counting (pos 2) (some zeros) (pos 4) p' 0
        ≡ (0, p', failure, some zeros))
    × (file_descriptor_table_write counting (pos 2) (some zeros) (pos 4) p' 0
        ≡ (0, p', failure, some zeros))
close_lem_example =
    close_lem counting reader 2 (some zeros) (pos 4) 0 refl (omega arith) pos≢failure
