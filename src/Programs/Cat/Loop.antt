-- ===== src/Programs/Cat/Loop.antt =====
-- The loop of the cat program prints what is left of its file.
use native.Mathlib.Nat.{zero-add}
use mathlib.Core.Path.{subst}
use light_os_a_linus_like_os.Common.{
  ℕ, zero, suc, ◌+◌, ◌-◌, ◌*◌, ◌^◌, ◌<◌, ◌≤◌, ◌≡◌, refl, ap, sym, ◌∙◌, ℤ, pos, Option, some, min,
  ltb, leb, arith, true, false, Bool-cases, inl, inr, not_below, ltb→lt, lt→ltb, tests,
}
use light_os_a_linus_like_os.Memory.{Bytes}
use light_os_a_linus_like_os.Kernel.{ece391_file_ops, Pcb, Kernel, set_pcb}
use light_os_a_linus_like_os.Console.{put_all}
use light_os_a_linus_like_os.Printf.Texts.{slice, put_all-++}
use light_os_a_linus_like_os.FileSystem.{inode_count, inode_length, read_data}
use light_os_a_linus_like_os.FileSystem.Data.{file_byte}
use light_os_a_linus_like_os.FileSystem.Ops.{file_read}
use light_os_a_linus_like_os.FileSystem.Reads.{file_read_lem}
use light_os_a_linus_like_os.Devices.{World, set_kernel, unchanged}
use light_os_a_linus_like_os.Process.Calls.{syscall_read, syscall_write}
use light_os_a_linus_like_os.Programs.Cat.{cat_loop}
use light_os_a_linus_like_os.Programs.Steps.{
  slice-++, slice-same, put_all-active_pid, is_null-pos, Reads, moved, written, read_step,
  write_step, moved-Reads, written-Reads,
}

-- One round of the loop.
round_lem :
    (boot : Option Bytes) (rounds count : ℕ) (fd : ℤ) (buf out : Bytes) (w w1 w2 : World)
    → syscall_read boot fd (some buf) (pos 1024) w ≡ (w1, pos count, some out)
    → syscall_write boot (pos 1) (some out) (pos count) w1 ≡ (w2, pos count, some out)
    → 0 < count
    → cat_loop boot (suc rounds) fd buf w ≡ cat_loop boot rounds fd out w2
unfolding cat_loop
round_lem boot rounds count fd buf out w w1 w2 r wr positive =
    rw (r, wr, is_null-pos count positive) refl

-- Two pieces of a text that are printed one after the other, `size` being its end.
pieces :
    (f : Bytes) (size offset : ℕ) (kk : Kernel)
    → offset < size
    → put_all
        (slice f (offset + 1024) (size - (offset + 1024)))
        (put_all (slice f offset (min 1024 (size - offset))) kk)
      ≡ put_all (slice f offset (size - offset)) kk
unfolding put_all
pieces f size offset kk lt = elim (Bool-cases (ltb size (offset + 1024))) [
  | inl e ↦
      let all : min 1024 (size - offset) ≡ size - offset = omega tests in
      let none_left : size - (offset + 1024) ≡ 0 = omega tests in rw (all, none_left) refl
  | inr e ↦
      let le = not_below size (offset + 1024) e in
      let block : min 1024 (size - offset) ≡ 1024 = omega arith in
      let whole : 1024 + (size - (offset + 1024)) ≡ size - offset = omega arith in
      rw block (
        sym (put_all-++ (slice f offset 1024) (slice f (offset + 1024) (size - (offset + 1024))) kk)
        ∙ ap (λ l. put_all l kk) (slice-++ f offset 1024 (size - (offset + 1024)))
        ∙ ap (λ m. put_all (slice f offset m) kk) whole)
]

module _ (image : Bytes) (n fd : ℕ) (low : 2 ≤ fd) (high : fd < 8)
    (inside : suc n < inode_count image) (short : inode_length image (suc n) < 2 ^ 31) where
  abbrev size : ℕ
  size = inode_length image (suc n)

  abbrev Prints : ℕ → ℕ → Pcb → Kernel → Bytes → World → Type 0
  Prints rounds offset p kk buf w =
      (p' : Pcb) × (cat_loop (some image) rounds (pos fd) buf
          (set_kernel (set_pcb kk.active_pid p kk) w)
        ≡ some (
          0,
          set_kernel
              (set_pcb kk.active_pid p'
                (put_all (slice (file_byte image (suc n)) offset (size - offset)) kk))
              w,
        ))

  -- A read at the end of the file gives nothing.
  read_end :
      (offset : ℕ) (buf : Bytes)
      → size ≤ offset
      → file_read (some image) (pos (suc n)) (some buf) 1024 offset ≡ (pos 0, some buf, offset)
  unfolding file_read read_data
  read_end offset buf le =
      let bound : leb (inode_count image) (suc n) ≡ false = ground arith in
      let end : leb (inode_length image (suc n)) offset ≡ true = ground arith in
      rw (bound, end) refl

  end_lem :
      (rounds offset : ℕ) (p : Pcb) (kk : Kernel) (buf : Bytes) (w : World)
      → Reads ece391_file_ops (pos (suc n)) fd offset p
      → size ≤ offset
      → Prints (suc rounds) offset p kk buf w
  unfolding cat_loop put_all
  end_lem rounds offset p kk buf w h le =
      let nothing : size - offset ≡ 0 = omega arith in
      let step =
        read_step (some image) ece391_file_ops refl (pos (suc n)) fd low high offset offset 1024 p
          kk w buf buf (pos 0) h (λ v. ap (unchanged v) (read_end offset buf le)) in
      (
        moved (some image) ece391_file_ops refl (pos (suc n)) fd low high offset p,
        rw (nothing, step) refl,
      )

  pub loop_lem :
      (rounds offset : ℕ) (p : Pcb) (kk : Kernel) (buf : Bytes) (w : World)
      → Reads ece391_file_ops (pos (suc n)) fd offset p
      → size ≤ offset + rounds * 1024
      → Prints (suc rounds) offset p kk buf w
  loop_lem zero offset p kk buf w h enough = end_lem 0 offset p kk buf w h (omega arith)
  loop_lem (suc rounds) offset p kk buf w h enough = elim (Bool-cases (ltb offset size)) [
    | inr e ↦ end_lem (suc rounds) offset p kk buf w h (not_below offset size e)
    | inl e ↦
        let lt : offset < size = ltb→lt offset size e in
        let count = min 1024 (size - offset) in
        let (out, reads, at) =
          file_read_lem image buf n offset 1024 inside lt short (omega arith) (omega arith) in
        let p1 =
          moved (some image) ece391_file_ops refl (pos (suc n)) fd low high (offset + 1024) p in
        let h1 =
          moved-Reads (some image) ece391_file_ops refl (pos (suc n)) fd low high offset
            (offset + 1024) p h in
        let r =
          read_step (some image) ece391_file_ops refl (pos (suc n)) fd low high offset
            (offset + 1024) 1024 p kk w buf out (pos count) h (λ v. ap (unchanged v) reads) in
        let positive : 0 < count = omega arith in
        let k1 = put_all (slice out 0 count) kk in
        let wr = write_step (some image) p1 kk w out count h1.out positive (omega arith) in
        let p2 = written p1 in
        let (p', more) =
          loop_lem rounds (offset + 1024) p2 k1 out w
            (written-Reads (some image) ece391_file_ops refl (pos (suc n)) fd low high
              (offset + 1024) p1 h1)
            (omega arith) in
        let f = file_byte image (suc n) in
        let text : slice out 0 count ≡ slice f offset count =
          slice-same out f 0 offset count
            (λ o small. ap out (zero-add o) ∙ at o ∙ rw (lt→ltb o count small) refl) in
        let rest = slice f (offset + 1024) (size - (offset + 1024)) in
        (
          p',
          round_lem (some image) (suc rounds) count (pos fd) buf out
                (set_kernel (set_pcb kk.active_pid p kk) w)
                (set_kernel (set_pcb kk.active_pid p1 kk) w)
                (set_kernel (set_pcb kk.active_pid p2 k1) w) r wr positive
              ∙ subst
                  (λ a.
                    cat_loop (some image) (suc rounds) (pos fd) out (set_kernel (set_pcb a p2 k1) w)
                    ≡ some (0, set_kernel (set_pcb a p' (put_all rest k1)) w))
                  (put_all-active_pid (slice out 0 count) kk) more
              ∙ ap
                  (λ l.
                    some (0, set_kernel (set_pcb kk.active_pid p' (put_all rest (put_all l kk))) w))
                  text
              ∙ ap (λ k. some (0, set_kernel (set_pcb kk.active_pid p' k) w))
                  (pieces f size offset kk lt),
        )
  ]
