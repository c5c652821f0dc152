-- ===== src/FileSystem/Ops.antt =====
-- The file and directory drivers of filesystem.c: the functions of `ece391_file_ops` and
-- `ece391_dir_ops`. A pointer argument that may be NULL is an option; an in-out argument is taken
-- as a value and its new value is returned beside the result.
use light_os_a_linus_like_os.Common.{
  ℕ, zero, suc, ◌+◌, ◌%◌, ℤ, pos, negsuc, failure, is_failure, is_positive, u32, to_int32, Option,
  none, some, Bool, true, false, leb, ◌==◌, if◌then◌else◌,
}
use light_os_a_linus_like_os.Memory.{Bytes, memcpy}
use light_os_a_linus_like_os.FileSystem.{
  DirEntry, direntry, inode_count, type_directory, type_file, read_dentry_by_name, read_data,
}

-- `file_open`: the result and the new `*fd`.
unfoldable pub file_open_entry : Option DirEntry → ℤ → ℤ × ℤ
file_open_entry none fd = (failure, fd)
file_open_entry (some dentry) fd =
    if dentry.filetype == type_file then (pos 0, to_int32 dentry.inode_num) else (failure, fd)

unfoldable pub file_open : Option Bytes → ℤ → Option Bytes → ℤ × ℤ
unfolding file_open_entry
file_open boot fd none = (failure, fd)
file_open none fd (some filename) = (failure, fd)
file_open (some image) fd (some filename) =
    file_open_entry (read_dentry_by_name (some image) (some filename)) fd

-- `file_close`: a descriptor that names no inode (-1) is refused.
unfoldable pub file_close : ℤ → ℤ × ℤ
file_close fd = if is_failure fd then (failure, fd) else (pos 0, failure)

pub file_write : ℤ
file_write = failure

-- The result, the buffer and the new `*offset`.
abbrev pub Transfer : Type 0
Transfer = ℤ × Option Bytes × ℕ

-- `fd == NULL`: inode 0 is refused.
abbrev pub is_null : ℤ → Bool
is_null (pos zero) = true
is_null (pos (suc n)) = false
is_null (negsuc n) = false

unfoldable pub file_read : Option Bytes → ℤ → Option Bytes → ℕ → ℕ → Transfer
file_read boot fd none len offset = (failure, none, offset)
file_read none fd (some buf) len offset = (failure, some buf, offset)
file_read (some image) fd (some buf) len offset =
    if is_null fd
    then (failure, some buf, offset)
    else let (return_value, buf') = read_data (some image) fd offset (some buf) len in
      if is_positive return_value
      then (return_value, buf', (offset + len) % u32)
      else (return_value, buf', offset)

-- `dir_open` wants `*fd` to be NULL, and the entry to be a directory.
dir_open_entry : Option DirEntry → ℤ → ℤ × ℤ
dir_open_entry none fd = (failure, fd)
dir_open_entry (some dentry) fd =
    if dentry.filetype == type_directory then (pos 0, to_int32 dentry.inode_num) else (failure, fd)

unfoldable pub dir_open : Option Bytes → ℤ → Option Bytes → ℤ × ℤ
unfolding dir_open_entry
dir_open boot fd none = (failure, fd)
dir_open none fd (some filename) = (failure, fd)
dir_open (some image) fd (some filename) =
    if is_null fd
    then dir_open_entry (read_dentry_by_name (some image) (some filename)) fd
    else (failure, fd)

unfoldable pub dir_close : Option Bytes → ℤ → ℤ × ℤ
dir_close none fd = (failure, fd)
dir_close (some image) fd = (pos 0, pos 0)

pub dir_write : ℤ
dir_write = failure

-- `dir_read` copies `length` bytes from the name of entry `*offset` on, and moves on by one entry.
unfoldable pub dir_read : Option Bytes → ℤ → Option Bytes → ℕ → ℕ → Transfer
dir_read boot fd none len offset = (failure, none, offset)
dir_read none fd (some buf) len offset = (failure, some buf, offset)
dir_read (some image) fd (some buf) len offset =
    if is_failure fd
    then (failure, some buf, offset)
    else if leb (inode_count image) offset
    then (failure, some buf, offset)
    else let buf' = memcpy len 0 0 (direntry image offset).filename buf in
      (if leb 18 (offset + 1) then pos 0 else to_int32 len, some buf', offset + 1)
