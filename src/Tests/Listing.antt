-- ===== src/Tests/Listing.antt =====
-- Example for the ls program: an image of 18 inodes.
use light_os_a_linus_like_os.Common.{
  ℕ, zero, suc, ◌<◌, ◌≡◌, refl, ◌≢◌, some, ◌++◌, true, min, arith,
}
use light_os_a_linus_like_os.Memory.{Bytes, update}
use light_os_a_linus_like_os.CString.{strncmp}
use light_os_a_linus_like_os.CString.Length.{IsLength, strlen-IsLength}
use light_os_a_linus_like_os.Text.{codes, bytes_of, bytes_of-IsLength}
use light_os_a_linus_like_os.Kernel.{Pcb, set_pcb}
use light_os_a_linus_like_os.Console.{put_all}
use light_os_a_linus_like_os.FileSystem.{direntry, entry_matches, inode_count, read_dentry_by_name}
use light_os_a_linus_like_os.Devices.{set_kernel}
use light_os_a_linus_like_os.Programs.Ls.{ls}
use light_os_a_linus_like_os.Programs.Ls.Lines.{names, message, status}
use light_os_a_linus_like_os.Programs.Ls.Prints.{ls_lem}
use light_os_a_linus_like_os.Tests.{zeros}
use light_os_a_linus_like_os.Tests.Programs.{world, caller-IsFirstFree}

-- Entry 0 is the directory `.`.
abbrev volume : Bytes
volume = update (update (update zeros 4 18) 64 b'.') 96 1

dot-IsLength : IsLength (direntry volume 0).filename 1
dot-IsLength = record { ends = refl; before = letters }
  where
    letters : (i : ℕ) → i < 1 → (direntry volume 0).filename i ≢ 0
    letters zero h = omega arith
    letters (suc i) h = absurd (omega arith)

dot_matches : entry_matches (bytes_of (codes ".")) 1 (direntry volume 0) ≡ true
unfolding entry_matches strncmp
dot_matches = rw (strlen-IsLength (direntry volume 0).filename 1 dot-IsLength (omega arith)) refl

dot_found :
    read_dentry_by_name (some volume) (some (bytes_of (codes "."))) ≡ some (direntry volume 0)
unfolding read_dentry_by_name
dot_found =
    rw
      (
        strlen-IsLength (bytes_of (codes ".")) 1 (bytes_of-IsLength (codes ".") refl) (omega arith),
        dot_matches,
      )
      refl

ls_lem_example :
    (p' : Pcb) × (ls (some volume) (suc (min (inode_count volume) 17)) zeros world
      ≡ some (
        status (inode_count volume),
        set_kernel
            (set_pcb 4 p' (
              put_all
                (names volume 0 (min (inode_count volume) 17) ++ message (inode_count volume))
                world.kernel))
            world,
      ))
ls_lem_example =
    ls_lem volume zeros world 2 (direntry volume 0) refl caller-IsFirstFree (omega arith) refl
      dot_found refl (omega arith)
