-- ===== src/FileSystem/Reads.antt =====
-- What a client of the file and directory drivers sees of `file_read` and `dir_read`.
use native.Mathlib.Nat.{add_assoc}
use light_os_a_linus_like_os.Common.{
  ℕ, suc, ◌+◌, ◌-◌, ◌^◌, ◌≤◌, ◌<◌, ◌*◌, ◌≡◌, pos, negsuc, to_int32, u32, min, some, is_positive-pos,
  ltb, if◌then◌else◌, arith,
}
use light_os_a_linus_like_os.Memory.{Bytes, memcpy, memcpy_lem}
use light_os_a_linus_like_os.FileSystem.{inode_count, inode_length, direntry}
use light_os_a_linus_like_os.FileSystem.Data.{file_byte, read_data_lem}
use light_os_a_linus_like_os.FileSystem.Ops.{file_read, dir_read}

-- `file_read` inside the file returns the number of bytes that it copies, up to the end of the
-- file, and moves the offset on by the length that was asked for.
pub file_read_lem :
    (image buf : Bytes) (n offset len : ℕ)
    → suc n < inode_count image
    → offset < inode_length image (suc n)
    → inode_length image (suc n) < 2 ^ 31
    → 0 < len
    → offset + len < u32
    → let count = min len (inode_length image (suc n) - offset) in
      (out : Bytes) × (file_read (some image) (pos (suc n)) (some buf) len offset
        ≡ (pos count, some out, offset + len))
      × ((j : ℕ) → out j ≡ (if ltb j count then file_byte image (suc n) (offset + j) else buf j))
unfolding file_read
file_read_lem image buf n offset len h1 h2 h3 h4 h5 =
    let (out, e, at) = read_data_lem image buf (suc n) offset len h1 h2 h3 in
    let count = min len (inode_length image (suc n) - offset) in
    (out, rw e (ground (arith, is_positive-pos count)), at)

-- Two calls of `file_read` that follow one another, the first of which stops inside the file: the
-- offset that the first leaves is where the second goes on, so that together they deliver the
-- bytes of the file from `offset` on with none lost and none repeated.
pub file_read_twice :
    (image buf buf2 : Bytes) (n offset a b : ℕ)
    → suc n < inode_count image
    → offset + a < inode_length image (suc n)
    → inode_length image (suc n) < 2 ^ 31
    → 0 < a
    → 0 < b
    → offset + a + b < u32
    → let count = min b (inode_length image (suc n) - (offset + a)) in
      (out out2 : Bytes) × (file_read (some image) (pos (suc n)) (some buf) a offset
        ≡ (pos a, some out, offset + a))
      × (file_read (some image) (pos (suc n)) (some buf2) b (offset + a)
          ≡ (pos count, some out2, offset + a + b))
      × ((j : ℕ) → j < a → out j ≡ file_byte image (suc n) (offset + j))
      × ((j : ℕ) → j < count → out2 j ≡ file_byte image (suc n) (offset + (a + j)))
file_read_twice image buf buf2 n offset a b h1 h2 h3 h4 h5 h6 =
    let (out, e, at) = file_read_lem image buf n offset a h1 (omega arith) h3 h4 (omega arith) in
    let (out2, e2, at2) = file_read_lem image buf2 n (offset + a) b h1 h2 h3 h5 h6 in
    let whole : min a (inode_length image (suc n) - offset) ≡ a = omega arith in
    (
      out,
      out2,
      rw whole at e,
      e2,
      λ j p. ground (arith, at j),
      λ j p. rw (← add_assoc) (ground (arith, at2 j)),
    )

-- What `dir_read` does with a valid descriptor: behind the last inode it fails; before that it
-- copies `length` bytes from the entry's name on, moves on by one entry, and returns `length` for
-- the entries 0 to 16 and 0 from entry 17 on.
pub dir_read_lem :
    (image buf : Bytes) (n len offset : ℕ)
    → let out = memcpy len 0 0 (direntry image offset).filename buf in
      (inode_count image ≤ offset
        → dir_read (some image) (pos n) (some buf) len offset ≡ (negsuc 0, some buf, offset))
      × (offset < inode_count image
          → offset < 17
          → dir_read (some image) (pos n) (some buf) len offset
            ≡ (to_int32 len, some out, offset + 1))
      × (offset < inode_count image
          → 17 ≤ offset
          → dir_read (some image) (pos n) (some buf) len offset ≡ (pos 0, some out, offset + 1))
      × ((j : ℕ) → out j ≡ (if ltb j len then image (64 + 64 * offset + j) else buf j))
unfolding dir_read
dir_read_lem image buf n len offset = (
  λ h. ground arith,
  λ h k. ground arith,
  λ h k. ground arith,
  λ j. ground (arith, memcpy_lem len 0 0 (direntry image offset).filename buf j),
)
