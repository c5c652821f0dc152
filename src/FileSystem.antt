-- ===== src/FileSystem.antt =====
-- student-distrib/filesystem.c and filesystem.h: the read-only file system image that the boot
-- loader places in memory. `none` for `boot_block_pointer` is NULL before `init_filesystem`.
pub mod Directory
pub mod Data
pub mod Ops
pub mod Reads
use light_os_a_linus_like_os.Common.{
  ℕ, zero, suc, ◌+◌, ◌-◌, ◌*◌, ◌/◌, ◌%◌, ℤ, pos, negsuc, failure, is_failure, is_positive, u32,
  to_int32, to_uint32, Option, none, some, Bool, true, false, not, ◌&&◌, ◌||◌, ltb, leb, ◌==◌,
  if◌then◌else◌,
}
use light_os_a_linus_like_os.Memory.{Bytes, offset_by, load32, memcpy}
use light_os_a_linus_like_os.CString.{strlen, strncmp}

abbrev pub filename_len : ℕ
filename_len = 32

abbrev pub max_directory_number : ℕ
max_directory_number = 63

abbrev pub block_size : ℕ
block_size = 4096

abbrev pub type_rtc : ℕ
type_rtc = 0

abbrev pub type_directory : ℕ
type_directory = 1

abbrev pub type_file : ℕ
type_file = 2

-- `dir_entry_t`. `filename` is a pointer to the entry's 64 bytes: the name fills the first 32, and
-- what reads on past them finds the file type, the inode number and the next entry.
pub record DirEntry : Type 0 where
  pub filename : Bytes
  pub filetype : ℕ
  pub inode_num : ℕ

-- The fields of `boot_block_t`.
abbrev pub inode_count : Bytes → ℕ
inode_count image = load32 image 4

abbrev pub direntry : Bytes → ℕ → DirEntry
direntry image index = record {
  filename = offset_by (64 + 64 * index) image;
  filetype = load32 image (64 + 64 * index + 32);
  inode_num = load32 image (64 + 64 * index + 36);
}

-- The fields of `i_node_t`, in the block behind the boot block that the number names.
abbrev pub inode_length : Bytes → ℕ → ℕ
inode_length image inode = load32 image (block_size * (1 + inode))

abbrev pub data_block_num : Bytes → ℕ → ℕ → ℕ
data_block_num image inode index = load32 image (block_size * (1 + inode) + 4 + 4 * index)

-- A byte of the data block that entry `index` of the inode names.
unfoldable pub block_byte : Bytes → ℕ → ℕ → ℕ → ℕ
block_byte image inode index i =
    image (block_size * (inode_count image + 1 + data_block_num image inode index) + i)

abbrev pub init_filesystem : Bytes → Option Bytes
init_filesystem address = some address

abbrev is_zero : ℤ → Bool
is_zero (pos zero) = true
is_zero (pos (suc n)) = false
is_zero (negsuc n) = false

-- The two tests that the loop of `read_dentry_by_name` makes of an entry.
unfoldable pub entry_matches : Bytes → ℕ → DirEntry → Bool
entry_matches fname len entry =
    (len == filename_len && is_zero (strncmp fname entry.filename filename_len))
    || (len == strlen entry.filename && is_zero (strncmp fname entry.filename len))

-- The loop of `read_dentry_by_name`, with `rounds` entries left from `index` on.
find_from : ℕ → Bytes → Bytes → ℕ → ℕ → Option DirEntry
find_from zero image fname len index = none
find_from (suc rounds) image fname len index =
    let rest = find_from rounds image fname len (suc index) in
    if entry_matches fname len (direntry image index) then some (direntry image index) else rest

-- `none` is the result -1; `some` is the result 0, with the entry copied to `*dentry`.
unfoldable pub read_dentry_by_name : Option Bytes → Option Bytes → Option DirEntry
unfolding find_from
read_dentry_by_name boot_block_pointer none = none
read_dentry_by_name none (some fname) = none
read_dentry_by_name (some image) (some fname) =
    if strlen fname == 0 then none else find_from max_directory_number image fname (strlen fname) 0

-- The part of block `index` that `read_data` copies.
block_byte_begin : ℕ → ℕ → ℕ
block_byte_begin offset index =
    let first = offset / block_size in if index == first then offset % block_size else 0

block_byte_end : ℕ → ℕ → ℕ → ℕ
block_byte_end offset len index =
    let last = (offset + len) / block_size in
    if index == last then (offset + len) % block_size else block_size

-- The loop of `read_data` from block `index` on. `done` bytes are copied; it counts both how far
-- `buf` has moved and `return_val`.
read_blocks : Bytes → ℕ → ℕ → ℕ → ℕ → ℕ → Bytes → ℕ → ℕ × Bytes
read_blocks image inode offset len zero index buf done = (done, buf)
read_blocks image inode offset len (suc rounds) index buf done =
    let from = block_byte_begin offset index in
    let count = block_byte_end offset len index - from in
    read_blocks image inode offset len rounds (suc index)
      (memcpy count done from (block_byte image inode index) buf) (done + count)

-- The length that `read_data` is left with: no more than what the file has from `offset` on.
abbrev pub clip : ℕ → ℕ → ℕ → ℕ
clip file_length offset len = if ltb (file_length - offset) len then file_length - offset else len

-- The result, and the buffer (`none` for NULL).
unfoldable pub read_data : Option Bytes → ℤ → ℕ → Option Bytes → ℕ → ℤ × Option Bytes
unfolding read_blocks block_byte_begin block_byte_end
read_data none inode offset buf len = (failure, buf)
read_data (some image) inode offset none len = (failure, none)
read_data (some image) (negsuc n) offset (some buf) len = (failure, some buf)
read_data (some image) (pos inode) offset (some buf) len =
    if leb (inode_count image) inode
    then (failure, some buf)
    else if leb (inode_length image inode) offset
    then (pos 0, some buf)
    else let n = clip (inode_length image inode) offset len in
      let first = offset / block_size in
      let last = (offset + n) / block_size in
      let (return_val, buf') = read_blocks image inode offset n (suc last - first) first buf 0 in
      (to_int32 return_val, some buf')
