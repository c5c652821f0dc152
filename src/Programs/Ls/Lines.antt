-- ===== src/Programs/Ls/Lines.antt =====
-- The lines that the ls program prints.
use native.Mathlib.Nat.{zero-add}
use light_os_a_linus_like_os.Common.{
  ℕ, zero, suc, ◌+◌, ◌-◌, ◌^◌, ◌<◌, ◌≡◌, refl, ap, sym, ◌∙◌, pos, Option, some, List, [], ◌∷◌, ◌++◌,
  length, ltb, leb, ==_no, arith, true, ◌&&◌, if◌then◌else◌,
}
use light_os_a_linus_like_os.Memory.{Bytes, memcpy, memcpy_lem}
use light_os_a_linus_like_os.CString.Length.{strlen-IsLength}
use light_os_a_linus_like_os.Text.{codes, bytes_of, has_no_nul, bytes_of-IsLength}
use light_os_a_linus_like_os.Kernel.{terminal_file_ops_stdout, Pcb, Kernel, set_pcb}
use light_os_a_linus_like_os.Console.{put_all}
use light_os_a_linus_like_os.Printf.Texts.{slice, slice-bytes_of}
use light_os_a_linus_like_os.FileSystem.{direntry}
use light_os_a_linus_like_os.Descriptors.{descriptor}
use light_os_a_linus_like_os.Devices.{World, set_kernel}
use light_os_a_linus_like_os.Process.Calls.{syscall_write}
use light_os_a_linus_like_os.Programs.{ece391_fdputs}
use light_os_a_linus_like_os.Programs.Steps.{slice-++, slice-same, written, write_step}
use light_os_a_linus_like_os.Programs.Ls.{end_line}

-- The lines that are printed for `n` entries from `i` on: the 32 bytes of the name field, NULs
-- included, and a newline.
abbrev pub names : Bytes → ℕ → ℕ → List ℕ
names image i zero = []
names image i (suc n) = slice (direntry image i).filename 0 32 ++ (b'\n' ∷ names image (suc i) n)

-- The text of the line.
pub line_text :
    (image buf : Bytes) (i : ℕ)
    → slice (end_line (pos 32) (memcpy 32 0 0 (direntry image i).filename buf)) 0 33
      ≡ slice (direntry image i).filename 0 32 ++ (b'\n' ∷ [])
line_text image buf i =
    let f = (direntry image i).filename in
    let line = end_line (pos 32) (memcpy 32 0 0 f buf) in
    sym (slice-++ line 0 32 1) ∙ ap (λ l. l ++ (b'\n' ∷ [])) (slice-same line f 0 0 32 copied)
  where
    copied :
        (o : ℕ)
        → o < 32
        → end_line (pos 32) (memcpy 32 0 0 (direntry image i).filename buf) (0 + o)
          ≡ (direntry image i).filename (0 + o)
    copied o lt =
        let f = (direntry image i).filename in
        let within : (leb 0 o && ltb o (0 + 32)) ≡ true = ground arith in
        let place : 0 + (o - 0) ≡ o = omega arith in
        rw (zero-add o, ==_no 32 o (omega arith))
          (memcpy_lem 32 0 0 f buf o ∙ rw (within, place) refl)

-- Printing a message.
pub put_line_lem :
    (boot : Option Bytes) (cs : List ℕ) (p : Pcb) (kk : Kernel) (w : World)
    → (descriptor p 1).file_ops ≡ some terminal_file_ops_stdout
    → has_no_nul cs ≡ true
    → 0 < length cs
    → length cs < 2 ^ 31
    → ece391_fdputs boot (pos 1) (bytes_of cs) (set_kernel (set_pcb kk.active_pid p kk) w)
      ≡ set_kernel (set_pcb kk.active_pid (written p) (put_all cs kk)) w
unfolding ece391_fdputs
put_line_lem boot cs p kk w out full positive small =
    let long =
      strlen-IsLength (bytes_of cs) (length cs) (bytes_of-IsLength cs full) (omega arith) in
    ap
      (λ n.
        (syscall_write boot (pos 1) (some (bytes_of cs)) (pos n)
          (set_kernel (set_pcb kk.active_pid p kk) w)).0)
      long
    ∙ ap (λ r. r.0) (write_step boot p kk w (bytes_of cs) (length cs) out positive small)
    ∙ ap (λ l. set_kernel (set_pcb kk.active_pid (written p) (put_all l kk)) w) (slice-bytes_of cs)

-- The message about a failed read, and how the program then ends.
abbrev pub message : ℕ → List ℕ
message inodes = if ltb 17 inodes then [] else codes "directory entry read failed\n"

abbrev pub status : ℕ → ℕ
status inodes = if ltb 17 inodes then 0 else 3
