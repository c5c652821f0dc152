-- ===== src/Programs/Ls/Loop.antt =====
-- The loop of the ls program prints the lines of the entries, and ends.

use mathlib.Core.Path.{subst}
use light_os_a_linus_like_os.Common.{
  ℕ, zero, suc, ◌+◌, ◌<◌, ◌≤◌, ◌≡◌, refl, ap, sym, ◌∙◌, ℤ, pos, failure, Option, some, min, [], ◌∷◌,
  ◌++◌, ltb, arith, Bool-cases, inl, inr,
}
use light_os_a_linus_like_os.Memory.{Bytes, memcpy}
use light_os_a_linus_like_os.Text.{codes}
use light_os_a_linus_like_os.Kernel.{ece391_dir_ops, Pcb, Kernel, set_pcb}
use light_os_a_linus_like_os.Console.{put_all}
use light_os_a_linus_like_os.Printf.Texts.{slice, put_all-++}
use light_os_a_linus_like_os.FileSystem.{direntry, inode_count}
use light_os_a_linus_like_os.FileSystem.Ops.{dir_read}
use light_os_a_linus_like_os.FileSystem.Reads.{dir_read_lem}
use light_os_a_linus_like_os.Devices.{World, set_kernel, unchanged}
use light_os_a_linus_like_os.Process.Calls.{syscall_read, syscall_write}
use light_os_a_linus_like_os.Programs.{put_line}
use light_os_a_linus_like_os.Programs.Steps.{
  put_all-active_pid, Reads, moved, written, read_step, write_step, moved-Reads, written-Reads,
}
use light_os_a_linus_like_os.Programs.Ls.{end_line, ls_loop}
use light_os_a_linus_like_os.Programs.Ls.Lines.{names, message, status, line_text, put_line_lem}

-- One round of the loop, for an entry.
round_lem :
    (boot : Option Bytes) (rounds : ℕ) (fd : ℤ) (buf out : Bytes) (w w1 w2 : World)
    → syscall_read boot fd (some buf) (pos 32) w ≡ (w1, pos 32, some out)
    → syscall_write boot (pos 1) (some (end_line (pos 32) out)) (pos 33) w1
      ≡ (w2, pos 33, some (end_line (pos 32) out))
    → ls_loop boot (suc rounds) fd buf w ≡ ls_loop boot rounds fd (end_line (pos 32) out) w2
unfolding ls_loop
round_lem boot rounds fd buf out w w1 w2 r wr = rw (r, wr) refl

-- A last round, that reads nothing or fails.
last_null :
    (boot : Option Bytes) (rounds : ℕ) (fd : ℤ) (buf out : Bytes) (w w1 : World)
    → syscall_read boot fd (some buf) (pos 32) w ≡ (w1, pos 0, some out)
    → ls_loop boot (suc rounds) fd buf w ≡ some (0, w1)
unfolding ls_loop
last_null boot rounds fd buf out w w1 r = rw r refl

last_failure :
    (boot : Option Bytes) (rounds : ℕ) (fd : ℤ) (buf out : Bytes) (w w1 : World)
    → syscall_read boot fd (some buf) (pos 32) w ≡ (w1, failure, some out)
    → ls_loop boot (suc rounds) fd buf w
      ≡ some (3, put_line boot "directory entry read failed\n" w1)
unfolding ls_loop
last_failure boot rounds fd buf out w w1 r = rw r refl

module _ (image : Bytes) (n fd : ℕ) (low : 2 ≤ fd) (high : fd < 8) where
  abbrev Listing : ℕ → Pcb → Type 0
  Listing offset p = Reads ece391_dir_ops (pos n) fd offset p

  abbrev move : ℕ → Pcb → Pcb
  move = moved (some image) ece391_dir_ops refl (pos n) fd low high

  abbrev end : Kernel → Kernel
  end kk = put_all (message (inode_count image)) kk

  -- The loop from an entry on prints the lines of `rounds` entries and ends.
  abbrev Prints : ℕ → ℕ → Pcb → Kernel → Bytes → World → Type 0
  Prints rounds i p kk buf w =
      (p' : Pcb) × (ls_loop (some image) (suc rounds) (pos fd) buf
          (set_kernel (set_pcb kk.active_pid p kk) w)
        ≡ some (
          status (inode_count image),
          set_kernel (set_pcb kk.active_pid p' (end (put_all (names image i rounds) kk))) w,
        ))

  directory_step :
      (offset offset' : ℕ) (p : Pcb) (kk : Kernel) (w : World) (buf buf' : Bytes) (result : ℤ)
      → Listing offset p
      → dir_read (some image) (pos n) (some buf) 32 offset ≡ (result, some buf', offset')
      → syscall_read
          (some image)
          (pos fd)
          (some buf)
          (pos 32)
          (set_kernel (set_pcb kk.active_pid p kk) w)
        ≡ (set_kernel (set_pcb kk.active_pid (move offset' p) kk) w, result, some buf')
  directory_step offset offset' p kk w buf buf' result h reads =
      read_step (some image) ece391_dir_ops refl (pos n) fd low high offset offset' 32 p kk w buf
        buf' result h (λ v. ap (unchanged v) reads)

  moved-Listing :
      (offset offset' : ℕ) (p : Pcb) → Listing offset p → Listing offset' (move offset' p)
  moved-Listing = moved-Reads (some image) ece391_dir_ops refl (pos n) fd low high

  end_lem :
      (i : ℕ) (p : Pcb) (kk : Kernel) (buf : Bytes) (w : World)
      → Listing i p
      → i ≡ min (inode_count image) 17
      → Prints 0 i p kk buf w
  unfolding put_all
  end_lem i p kk buf w h last = elim (Bool-cases (ltb 17 (inode_count image))) [
    | inl e ↦
        let out = memcpy 32 0 0 (direntry image i).filename buf in
        let r =
          directory_step i (i + 1) p kk w buf out (pos 0) h
            ((dir_read_lem image buf n 32 i).2 (ground arith) (ground arith)) in
        (
          move (i + 1) p,
          rw e (
              last_null (some image) 0 (pos fd) buf out (set_kernel (set_pcb kk.active_pid p kk) w)
                (set_kernel (set_pcb kk.active_pid (move (i + 1) p) kk) w) r),
        )
    | inr e ↦
        let r =
          directory_step i i p kk w buf buf failure h
            ((dir_read_lem image buf n 32 i).0 (ground arith)) in
        (
          written (move i p),
          rw e (
              last_failure (some image) 0 (pos fd) buf buf
                (set_kernel (set_pcb kk.active_pid p kk) w)
                (set_kernel (set_pcb kk.active_pid (move i p) kk) w) r
              ∙ ap (λ v. some (3, v))
                  (put_line_lem (some image) (codes "directory entry read failed\n") (move i p) kk w
                    (moved-Listing i i p h).out refl (omega arith) (omega arith))),
        )
  ]

  -- A line, and the lines behind it.
  joined :
      (buf : Bytes) (i rounds : ℕ) (kk : Kernel)
      → put_all (names image (i + 1) rounds) (
          put_all
            (slice (end_line (pos 32) (memcpy 32 0 0 (direntry image i).filename buf)) 0 33)
            kk)
        ≡ put_all (names image i (suc rounds)) kk
  joined buf i rounds kk =
      let f = (direntry image i).filename in
      let next : i + 1 ≡ suc i = omega arith in
      ap (λ l. put_all (names image (i + 1) rounds) (put_all l kk)) (line_text image buf i)
      ∙ sym (put_all-++ (slice f 0 32 ++ (b'\n' ∷ [])) (names image (i + 1) rounds) kk)
      ∙ ap (λ j. put_all ((slice f 0 32 ++ (b'\n' ∷ [])) ++ names image j rounds) kk) next

  pub loop_lem :
      (rounds i : ℕ) (p : Pcb) (kk : Kernel) (buf : Bytes) (w : World)
      → Listing i p
      → i + rounds ≡ min (inode_count image) 17
      → Prints rounds i p kk buf w
  loop_lem zero i p kk buf w h total = end_lem i p kk buf w h (omega arith)
  loop_lem (suc rounds) i p kk buf w h total =
      let f = (direntry image i).filename in
      let out = memcpy 32 0 0 f buf in
      let line = end_line (pos 32) out in
      let p1 = move (i + 1) p in
      let h1 = moved-Listing i (i + 1) p h in
      let r =
        directory_step i (i + 1) p kk w buf out (pos 32) h
          ((dir_read_lem image buf n 32 i).1 (omega arith) (omega arith)) in
      let k1 = put_all (slice line 0 33) kk in
      let wr = write_step (some image) p1 kk w line 33 h1.out (omega arith) (omega arith) in
      let p2 = written p1 in
      let h2 = written-Reads (some image) ece391_dir_ops refl (pos n) fd low high (i + 1) p1 h1 in
      let (p', more) = loop_lem rounds (i + 1) p2 k1 line w h2 (omega arith) in
      (
        p',
        round_lem (some image) (suc rounds) (pos fd) buf out
              (set_kernel (set_pcb kk.active_pid p kk) w)
              (set_kernel (set_pcb kk.active_pid p1 kk) w)
              (set_kernel (set_pcb kk.active_pid p2 k1) w) r wr
            ∙ subst
                (λ a.
                  ls_loop (some image) (suc rounds) (pos fd) line (set_kernel (set_pcb a p2 k1) w)
                  ≡ some (
                    status (inode_count image),
                    set_kernel (set_pcb a p' (end (put_all (names image (i + 1) rounds) k1))) w,
                  ))
                (put_all-active_pid (slice line 0 33) kk) more
            ∙ ap
                (λ k.
                  some
                    (status (inode_count image), set_kernel (set_pcb kk.active_pid p' (end k)) w))
                (joined buf i rounds kk),
      )
