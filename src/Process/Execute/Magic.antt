-- ===== src/Process/Execute/Magic.antt =====
-- What the test of a program's first four bytes in syscall.c's `syscall_execute` says of the file.
use mathlib.Core.Bool.{false≢true}
use light_os_a_linus_like_os.Common.{
  ℕ, min, pos, negsuc, ◌+◌, ◌-◌, ◌^◌, ◌<◌, ◌≡◌, ◌∙◌, refl, sym, ap, ltb→lt, leb, ltb, if◌then◌else◌,
  ℤ, failure, is_failure, Option, none, some, true, false, Bool-cases, inl, inr, arith,
}
use light_os_a_linus_like_os.Memory.{Bytes}
use light_os_a_linus_like_os.FileSystem.{inode_count, inode_length, read_data}
use light_os_a_linus_like_os.FileSystem.Data.{file_byte, read_data_lem}
use light_os_a_linus_like_os.Process.Execute.{is_executable}

-- The four bytes that are read over what the stack held are those of an executable file.
pub record Passes (boot : Option Bytes) (stack : Bytes) (inode : ℤ) : Type 0 where
  pub head : Bytes
  pub count : ℤ
  pub reads : read_data boot inode 0 (some stack) 4 ≡ (count, some head)
  pub succeeds : is_failure count ≡ false
  pub is_program : is_executable head ≡ true

-- A byte of a file, or behind its end the byte that the stack holds there.
abbrev pub start_byte : Bytes → Bytes → ℕ → ℕ → ℕ
start_byte image stack inode j =
    if ltb j (inode_length image inode) then file_byte image inode j else stack j

-- The file at an inode starts with the byte 0x7f and the letters ELF, the bytes of an executable
-- file; where it has fewer than four, what the stack holds stands for those that are missing.
pub record IsProgram (image stack : Bytes) (fd : ℤ) : Type 0 where
  pub inode : ℕ
  pub is_inode : fd ≡ pos inode
  pub in_range : inode < inode_count image
  pub starts :
      let b = start_byte image stack inode in
      (b 0 ≡ 0x7f) × (b 1 ≡ b'E') × (b 2 ≡ b'L') × (b 3 ≡ b'F')

executable_bytes :
    (s : Bytes) → is_executable s ≡ true → (s 0 ≡ 0x7f) × (s 1 ≡ b'E') × (s 2 ≡ b'L') × (s 3 ≡ b'F')
executable_bytes s e = (ground arith, ground arith, ground arith, ground arith)

start_of :
    (image stack head : Bytes) (inode len j : ℕ)
    → head j ≡ (if ltb j (min 4 (len - 0)) then file_byte image inode (0 + j) else stack j)
    → j < 4
    → head j ≡ (if ltb j len then file_byte image inode j else stack j)
start_of image stack head inode len j e lt =
    let zero_add : 0 + j ≡ j = omega arith in rw zero_add at e ∙ ground arith

-- What a reading leaves in the buffer.
buffer_of : Bytes → ℤ × Option Bytes → Bytes
buffer_of stack (count, none) = stack
buffer_of stack (count, some buf) = buf

refuted :
    (image stack : Bytes) (fd : ℤ)
    → read_data (some image) fd 0 (some stack) 4 ≡ (failure, some stack)
    → ¬ Passes (some image) stack fd
refuted image stack fd f p =
    false≢true (sym p.succeeds ∙ ap (λ (r : ℤ × Option Bytes). is_failure r.0) (sym p.reads ∙ f))

past_end :
    (image stack : Bytes) (i : ℕ)
    → i < inode_count image
    → inode_length image i ≡ 0
    → read_data (some image) (pos i) 0 (some stack) 4 ≡ (pos 0, some stack)
unfolding read_data
past_end image stack i lt z = rw z (ground arith)

out_of_range :
    (image stack : Bytes) (i : ℕ)
    → leb (inode_count image) i ≡ true
    → read_data (some image) (pos i) 0 (some stack) 4 ≡ (failure, some stack)
unfolding read_data
out_of_range image stack i e = rw e refl

no_inode :
    (image stack : Bytes) (n : ℕ)
    → read_data (some image) (negsuc n) 0 (some stack) 4 ≡ (failure, some stack)
unfolding read_data
no_inode image stack n = refl

nothing_below : (j a b : ℕ) → b ≡ (if ltb j 0 then a else b)
nothing_below j a b = ground arith

-- What stands in the buffer, wherever the file ends.
head-start :
    (image stack : Bytes) (i : ℕ)
    → inode_length image i < 2 ^ 31
    → i < inode_count image
    → (p : Passes (some image) stack (pos i)) → (j : ℕ) → j < 4
    → p.head j ≡ (if ltb j (inode_length image i) then file_byte image i j else stack j)
unfolding buffer_of
head-start image stack i short lt p j lt' = elim (Bool-cases (ltb 0 (inode_length image i))) [
  | inl e ↦
      let (out, reads, bytes) =
        read_data_lem image stack i 0 4 lt (ltb→lt 0 (inode_length image i) e) short in
      let same : out ≡ p.head = ap (buffer_of stack) (sym reads ∙ p.reads) in
      start_of image stack p.head i (inode_length image i) j
        (ap (λ (b : Bytes). b j) (sym same) ∙ bytes j) lt'
  | inr e ↦
      let z : inode_length image i ≡ 0 = ground arith in
      let same : stack ≡ p.head =
        ap (buffer_of stack) (sym (past_end image stack i lt z) ∙ p.reads) in
      ap (λ (b : Bytes). b j) (sym same) ∙ rw z (nothing_below j (file_byte image i j) (stack j))
]

pub Passes-IsProgram :
    (image stack : Bytes) (fd : ℤ)
    → ((i : ℕ) → inode_length image i < 2 ^ 31)
    → Passes (some image) stack fd
    → IsProgram image stack fd
Passes-IsProgram image stack (negsuc n) short p =
    absurd (refuted image stack (negsuc n) (no_inode image stack n) p)
Passes-IsProgram image stack (pos i) short p = elim (Bool-cases (leb (inode_count image) i)) [
  | inl e ↦ absurd (refuted image stack (pos i) (out_of_range image stack i e) p)
  | inr e ↦
      let lt : i < inode_count image = ground arith in
      record {
        inode = i;
        is_inode = refl;
        in_range = lt;
        starts =
            let at =
              λ (j : ℕ) (below : j < 4). sym (head-start image stack i (short i) lt p j below) in
            let (b0, b1, b2, b3) = executable_bytes p.head p.is_program in
            (
              at 0 (omega arith) ∙ b0,
              at 1 (omega arith) ∙ b1,
              at 2 (omega arith) ∙ b2,
              at 3 (omega arith) ∙ b3,
            );
      }
]
