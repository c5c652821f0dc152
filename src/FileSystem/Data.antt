-- ===== src/FileSystem/Data.antt =====
-- `read_data` copies the bytes of the file.
use light_os_a_linus_like_os.Common.{
  ℕ, zero, suc, ◌+◌, ◌-◌, ◌*◌, ◌/◌, ◌%◌, ◌≤◌, ◌<◌, ◌≡◌, ◌∙◌, ◌^◌, min, ◌&&◌, pos, some, ltb, leb,
  if◌then◌else◌, arith,
}
use light_os_a_linus_like_os.Memory.{Bytes, memcpy, memcpy_lem}
use light_os_a_linus_like_os.FileSystem.{
  inode_count, inode_length, block_byte, block_byte_begin, block_byte_end, read_blocks, clip,
  read_data, block_size,
}

-- Byte `p` of the file.
abbrev pub file_byte : Bytes → ℕ → ℕ → ℕ
file_byte image inode p = block_byte image inode (p / block_size) (p % block_size)

-- How many bytes stand in the buffer when the loop reaches block `index`.
record IsAt (offset len index done : ℕ) : Type 0 where
  start : index ≡ offset / block_size → done ≡ 0
  inside :
      offset / block_size < index
      → index ≤ (offset + len) / block_size
      → done + offset ≡ index * block_size
  finished : (offset + len) / block_size < index → done ≡ len

module _ (offset len index done : ℕ) (low : offset / block_size ≤ index)
    (high : index ≤ (offset + len) / block_size) (at : IsAt offset len index done) where
  next_done : ℕ
  next_done = done + (block_byte_end offset len index - block_byte_begin offset index)

  IsAt-next : IsAt offset len (suc index) next_done
  unfolding next_done block_byte_begin block_byte_end
  IsAt-next = ground arith

  next_done-le : next_done ≤ len
  unfolding next_done block_byte_begin block_byte_end
  next_done-le = ground arith

  in_block :
      (j : ℕ)
      → done ≤ j
      → j < next_done
      → ((offset + j) / block_size ≡ index)
        × ((offset + j) % block_size ≡ block_byte_begin offset index + (j - done))
  unfolding next_done block_byte_begin block_byte_end
  in_block j p q = ground arith

  chunk_copied :
      (image : Bytes) (inode : ℕ) (buf : Bytes) (j : ℕ)
      → let from = block_byte_begin offset index in
        let count = block_byte_end offset len index - from in
        (if leb (done + count) j && ltb j len
          then file_byte image inode (offset + j)
          else memcpy count done from (block_byte image inode index) buf j)
        ≡ (if leb done j && ltb j len then file_byte image inode (offset + j) else buf j)
  unfolding next_done
  chunk_copied image inode buf j =
      let from = block_byte_begin offset index in
      let count = block_byte_end offset len index - from in
      ground (
        arith,
        in_block j,
        next_done-le,
        memcpy_lem count done from (block_byte image inode index) buf j,
      )

module _ (image : Bytes) (inode offset len : ℕ) where
  read_blocks_lem :
      (rounds index : ℕ) (buf : Bytes) (done : ℕ)
      → offset / block_size ≤ index
      → index + rounds ≡ suc ((offset + len) / block_size)
      → IsAt offset len index done
      → ((read_blocks image inode offset len rounds index buf done).0 ≡ len)
        × ((j : ℕ)
            → (read_blocks image inode offset len rounds index buf done).1 j
              ≡ (if leb done j && ltb j len then file_byte image inode (offset + j) else buf j))
  unfolding read_blocks
  read_blocks_lem zero index buf done le e at = (omega arith, λ j. ground arith)
  read_blocks_lem (suc rounds) index buf done le e at =
      let from = block_byte_begin offset index in
      let count = block_byte_end offset len index - from in
      let ih =
        read_blocks_lem rounds (suc index)
          (memcpy count done from (block_byte image inode index) buf) (done + count) (omega arith)
          (omega arith) (unfold next_done in IsAt-next offset len index done le (omega arith) at) in
      (ih.0, λ j. ih.1 j ∙ chunk_copied offset len index done le (omega arith) at image inode buf j)

-- What `read_data` returns and leaves in the buffer, for a file whose length is no negative
-- `int32_t`: the number of bytes between `offset` and the end of the file, `length` at most, and
-- those bytes of the file at the front of the buffer, the rest of which keeps its contents.
pub read_data_lem :
    (image buf : Bytes) (inode offset len : ℕ)
    → inode < inode_count image
    → offset < inode_length image inode
    → inode_length image inode < 2 ^ 31
    → let n = min len (inode_length image inode - offset) in
      (out : Bytes) × (read_data (some image) (pos inode) offset (some buf) len ≡ (pos n, some out))
      × ((j : ℕ) → out j ≡ (if ltb j n then file_byte image inode (offset + j) else buf j))
unfolding read_data
read_data_lem image buf inode offset len h1 h2 h3 =
    let n = clip (inode_length image inode) offset len in
    let first = offset / block_size in
    let rounds = suc ((offset + n) / block_size) - first in
    let (count, out) =
      read_blocks_lem image inode offset n rounds first buf 0 (omega arith) (ground arith)
        (ground arith) in
    (
      (read_blocks image inode offset n rounds first buf 0).1,
      ground (arith, count),
      λ j. ground (arith, out j),
    )
