-- ===== src/Tests/Starts.antt =====
-- Example for the start of a program with an argument.
use light_os_a_linus_like_os.Common.{ℕ, zero, suc, ◌+◌, ◌<◌, ◌≡◌, refl, inr, some, [], ◌∷◌, arith}
use light_os_a_linus_like_os.Memory.{Bytes}
use light_os_a_linus_like_os.Text.{bytes_of, bytes_of-IsLength}
use light_os_a_linus_like_os.Kernel.{Kernel}
use light_os_a_linus_like_os.FileSystem.{block_byte, inode_count, inode_length, direntry}
use light_os_a_linus_like_os.Process.Command.Words.{Words}
use light_os_a_linus_like_os.Process.Execute.{started, syscall_execute}
use light_os_a_linus_like_os.Process.Execute.Loads.{IsStarted}
use light_os_a_linus_like_os.Process.Execute.Starts.{IsProgramFile, syscall_execute-IsStarted}
use light_os_a_linus_like_os.Tests.{zeros, image, kernel}
use light_os_a_linus_like_os.Tests.Files.{name_found}
use light_os_a_linus_like_os.Tests.Machine.{five-IsFirst}

-- ` ls ab c`
abbrev command : Bytes
command = bytes_of (b' ' ∷ b'l' ∷ b's' ∷ b' ' ∷ b'a' ∷ b'b' ∷ b' ' ∷ b'c' ∷ [])

command-Words : Words command 8 1 1 (b'l' ∷ b's' ∷ []) (b'a' ∷ b'b' ∷ [])
command-Words = record {
  is_length = bytes_of-IsLength (b' ' ∷ b'l' ∷ b's' ∷ b' ' ∷ b'a' ∷ b'b' ∷ b' ' ∷ b'c' ∷ []) refl;
  blanks_before = first;
  name_at = (refl, omega arith, omega arith, (refl, omega arith, omega arith, tt));
  name_ends = inr (refl, omega arith);
  blanks_between = second;
  arg_at = (refl, omega arith, omega arith, (refl, omega arith, omega arith, tt));
  arg_ends = inr (refl, omega arith);
  inside = omega arith;
}
  where
    first : (j : ℕ) → j < 1 → command j ≡ b' '
    first zero lt = refl
    first (suc j) lt = absurd (omega arith)

    second : (j : ℕ) → j < 1 → command (3 + j) ≡ b' '
    second zero lt = refl
    second (suc j) lt = absurd (omega arith)

two_inodes : inode_count image ≡ 2
two_inodes = refl

four_bytes : inode_length image 1 ≡ 4
four_bytes = refl

ls-IsProgramFile : IsProgramFile image 1
unfolding block_byte
ls-IsProgramFile = record {
  inside = omega (arith, two_inodes);
  small = omega arith;
  has_head = omega (arith, four_bytes);
  fits = omega (arith, four_bytes);
  is_program = refl;
}

syscall_execute-IsStarted_example :
    (k' : Kernel) × (syscall_execute (some image) zeros command kernel ≡ started 5 k')
    × IsStarted image 1 5 (b'a' ∷ b'b' ∷ []) kernel k'
syscall_execute-IsStarted_example =
    syscall_execute-IsStarted image zeros command kernel 8 1 1 (b'l' ∷ b's' ∷ []) (b'a' ∷ b'b' ∷ [])
      (direntry image 1) 1 5 command-Words (omega arith) (omega arith) (omega arith) (omega arith)
      name_found refl refl ls-IsProgramFile five-IsFirst (omega arith) (omega arith)
