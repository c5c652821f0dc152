-- ===== src/Tests/Files.antt =====
-- Examples for strings, the file system and what reads it.
use light_os_a_linus_like_os.Common.{
  ◌⊎◌, ℕ, zero, suc, ◌+◌, ◌<◌, ◌≤◌, ◌≡◌, refl, ◌≢◌, ◌↔◌, pos, failure, true, false, some, none, ltb,
  leb, if◌then◌else◌, arith,
}
use light_os_a_linus_like_os.Memory.{Bytes}
use light_os_a_linus_like_os.Kernel.{Kernel}
use light_os_a_linus_like_os.CString.{strncmp}
use light_os_a_linus_like_os.CString.Length.{IsLength, strlen-IsLength}
use light_os_a_linus_like_os.CString.Compare.{IsBytes, Agree, strncmp_lem}
use light_os_a_linus_like_os.FileSystem.{
  inode_count, inode_length, direntry, entry_matches, read_data, read_dentry_by_name,
}
use light_os_a_linus_like_os.FileSystem.Data.{file_byte, read_data_lem}
use light_os_a_linus_like_os.FileSystem.Directory.{Finds, read_dentry_by_name-Finds}
use light_os_a_linus_like_os.Descriptors.{}
use light_os_a_linus_like_os.Descriptors.Open.{}
use light_os_a_linus_like_os.Process.Calls.{syscall_getargs}
use light_os_a_linus_like_os.Process.Calls.Arguments.{syscall_getargs_lem}
use light_os_a_linus_like_os.Tests.{kernel, zeros, image, name, process}

two_inodes : inode_count image ≡ 2
two_inodes = refl

four_bytes : inode_length image 1 ≡ 4
four_bytes = refl

read_data_lem_example :
    (out : Bytes) × (read_data (some image) (pos 1) 1 (some zeros) 5 ≡ (pos 3, some out))
    × ((j : ℕ) → out j ≡ (if ltb j 3 then file_byte image 1 (1 + j) else 0))
read_data_lem_example =
    read_data_lem image zeros 1 1 5 (omega (arith, two_inodes)) (omega (arith, four_bytes))
      (omega (arith, four_bytes))

pub name-IsLength : IsLength name 2
name-IsLength = record { ends = refl; before = letters }
  where
    letters : (i : ℕ) → i < 2 → name i ≢ 0
    letters zero h = omega arith
    letters (suc zero) h = omega arith
    letters (suc (suc i)) h = absurd (omega arith)

name-IsBytes : IsBytes name
name-IsBytes zero = omega arith
name-IsBytes (suc zero) = omega arith
name-IsBytes (suc (suc zero)) = omega arith
name-IsBytes (suc (suc (suc i))) = omega arith

image-IsBytes : IsBytes image
image-IsBytes i = ground arith

read_dentry_by_name-Finds_example :
    Finds image name 2 0 63 (read_dentry_by_name (some image) (some name))
read_dentry_by_name-Finds_example =
    read_dentry_by_name-Finds image name 2 name-IsLength (omega arith) (omega arith) name-IsBytes
      image-IsBytes

first-IsLength : IsLength (direntry image 0).filename 0
first-IsLength = record { ends = refl; before = λ i h. absurd (omega arith) }

second-IsLength : IsLength (direntry image 1).filename 2
second-IsLength = record { ends = refl; before = letters }
  where
    letters : (i : ℕ) → i < 2 → (direntry image 1).filename i ≢ 0
    letters zero h = omega arith
    letters (suc zero) h = omega arith
    letters (suc (suc i)) h = absurd (omega arith)

first_differs : entry_matches name 2 (direntry image 0) ≡ false
unfolding entry_matches strncmp
first_differs = rw (strlen-IsLength (direntry image 0).filename 0 first-IsLength (omega arith)) refl

second_matches : entry_matches name 2 (direntry image 1) ≡ true
unfolding entry_matches strncmp
second_matches =
    rw (strlen-IsLength (direntry image 1).filename 2 second-IsLength (omega arith)) refl

pub name_found : read_dentry_by_name (some image) (some name) ≡ some (direntry image 1)
unfolding read_dentry_by_name
name_found =
    rw (strlen-IsLength name 2 name-IsLength (omega arith), first_differs, second_matches) refl

name-full : (k : ℕ) → k < 2 → name k ≢ 0
name-full = name-IsLength.before

strncmp_lem_example : (strncmp name name 2 ≡ pos 0) ↔ Agree name name 2
strncmp_lem_example = strncmp_lem name name 2 name-IsBytes name-IsBytes name-full

-- A process that was started with the argument `ls`.
abbrev asked : Kernel
asked =
    let p = process 1 in
    record kernel { argument_exist = 1; pcbs = λ pid. record p { arg_buf = name } }

syscall_getargs_lem_example :
    (asked.argument_exist ≢ 0
      → 2 ≤ 8
      → (out : Bytes) × (syscall_getargs (some zeros) (pos 8) asked ≡ (pos 0, some out))
        × ((j : ℕ) → out j ≡ (if leb j 2 then name j else 0)))
    × ((asked.argument_exist ≡ 0) ⊎ (8 < 2)
        → syscall_getargs (some zeros) (pos 8) asked ≡ (failure, some zeros))
    × (syscall_getargs none (pos 8) asked ≡ (failure, none))
syscall_getargs_lem_example = syscall_getargs_lem zeros 8 2 asked name-IsLength (omega arith)
