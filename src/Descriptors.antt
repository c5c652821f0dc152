-- ===== src/Descriptors.antt =====
-- student-distrib/general_file.c: the table of open files in a process's control block.
pub mod Open
pub mod Close
use light_os_a_linus_like_os.Common.{
  ℕ, zero, suc, ◌+◌, ℤ, pos, negsuc, failure, is_failure, to_int32, to_uint32, Option, none, some,
  Bool, true, false, List, [], ◌∷◌, get_or, set, leb, ◌==◌, if◌then◌else◌,
}
use light_os_a_linus_like_os.Memory.{Bytes}
use light_os_a_linus_like_os.Kernel.{
  FileOps, terminal_file_ops_stdin, terminal_file_ops_stdout, ece391_file_ops, ece391_dir_ops,
  ece391_rtc_ops, FileDescriptor, Pcb,
}
use light_os_a_linus_like_os.FileSystem.{
  DirEntry, read_dentry_by_name, type_rtc, type_directory, type_file,
}
use light_os_a_linus_like_os.FileSystem.Ops.{file_close}

abbrev pub max_num_files : ℕ
max_num_files = 8

-- A descriptor that is not in use, with its operations.
abbrev pub closed : Option FileOps → FileDescriptor
closed ops = record { file_ops = ops; inode = failure; file_pos = 0; flags = 0 }

-- `fd_table[i]`
abbrev pub descriptor : Pcb → ℕ → FileDescriptor
descriptor p i = get_or p.file_descriptor_array i (closed none)

abbrev pub set_descriptor : ℕ → FileDescriptor → Pcb → Pcb
set_descriptor i d p = record p { file_descriptor_array = set p.file_descriptor_array i d }

abbrev first_ops : ℕ → Option FileOps
first_ops i =
    if i == 0
    then some terminal_file_ops_stdin
    else if i == 1
    then some terminal_file_ops_stdout
    else none

-- The loop of `file_descriptor_table_init` from `i` on.
init_from : ℕ → ℕ → Pcb → Pcb
init_from zero i p = p
init_from (suc rounds) i p = init_from rounds (suc i) (set_descriptor i (closed (first_ops i)) p)

unfoldable pub file_descriptor_table_init : Pcb → Pcb
unfolding init_from
file_descriptor_table_init p = init_from max_num_files 0 p

-- The `while` loop of `file_descriptor_table_open` from `fd_num` on: `rounds` entries are left.
find_free : ℕ → ℕ → Pcb → ℕ
find_free zero fd_num p = fd_num
find_free (suc rounds) fd_num p =
    let rest = find_free rounds (suc fd_num) p in
    if (descriptor p fd_num).flags == 1 then rest else fd_num

-- `fd_table[i].flags = 1`. The array is the first field of `pcb_t` and an entry has 16 bytes, so
-- the flags of an entry 8 would stand at byte 140, which is `current_ebp`.
abbrev pub mark_used : ℕ → Pcb → Pcb
mark_used i p =
    let d = descriptor p i in
    if i == max_num_files
    then record p { current_ebp = 1 }
    else set_descriptor i (record d { flags = 1 }) p

abbrev open_as : FileOps → ℕ → DirEntry → Pcb → Pcb
open_as ops i entry p =
    let d = descriptor p i in
    set_descriptor i
      (record d { file_ops = some ops; inode = to_int32 entry.inode_num; file_pos = 0 }) p

-- The three types of `dir_entry`; any other leaves the descriptor as it is.
pub install : ℕ → DirEntry → Pcb → Pcb
install i entry p =
    if entry.filetype == type_file
    then open_as ece391_file_ops i entry p
    else if entry.filetype == type_directory
    then open_as ece391_dir_ops i entry p
    else if entry.filetype == type_rtc
    then open_as ece391_rtc_ops i entry p
    else p

open_entry : ℕ → Option DirEntry → Pcb → ℤ × Pcb
open_entry i none p = (failure, p)
open_entry i (some entry) p = (pos i, install i entry p)

-- `boot` is `boot_block_pointer`.
unfoldable pub file_descriptor_table_open : Option Bytes → Option Bytes → Pcb → ℤ × Pcb
unfolding find_free open_entry
file_descriptor_table_open boot filename p =
    let fd_num = find_free 6 2 p in
    let p' = mark_used fd_num p in
    if fd_num == max_num_files
    then (failure, p')
    else open_entry fd_num (read_dentry_by_name boot filename) p'

close_at : ℕ → Pcb → ℤ × Pcb
close_at i p =
    let (result, inode) = file_close (descriptor p i).inode in
    if is_failure result then (failure, p) else (
      pos 0,
      set_descriptor i (record { file_ops = none; inode = inode; file_pos = 0; flags = 0 }) p,
    )

unfoldable pub file_descriptor_table_close : ℤ → Pcb → ℤ × Pcb
unfolding close_at
file_descriptor_table_close (negsuc n) p = (failure, p)
file_descriptor_table_close (pos i) p = if leb max_num_files i then (failure, p) else close_at i p

-- Which of the tables have a `read` and a `write` that is not NULL.
abbrev pub can_read : FileOps → Bool
can_read terminal_file_ops_stdout = false
can_read _ = true

abbrev pub can_write : FileOps → Bool
can_write terminal_file_ops_stdin = false
can_write _ = true

-- What a driver's call gives back: the rest of the kernel, the result, the buffer and the offset.
abbrev pub Result : Type 0 → Type 0
Result S = S × ℤ × Option Bytes × ℕ

-- The functions that the tables point to, over a state `S` of the drivers: inode, buffer, length
-- and offset are handed over.
pub record Drivers (S : Type 0) : Type 0 where
  pub read : FileOps → ℤ → Option Bytes → ℕ → ℕ → S → Result S
  pub write : FileOps → ℤ → Option Bytes → ℕ → ℕ → S → Result S

-- The new position goes back to the table.
abbrev store_position : {S : Type 0} → ℕ → Pcb → Result S → S × Pcb × ℤ × Option Bytes
store_position i p (s, result, buf, offset) =
    let d = descriptor p i in (s, set_descriptor i (record d { file_pos = offset }) p, result, buf)

module _ {S : Type 0} (drivers : Drivers S) where
  read_with : Option FileOps → ℕ → Option Bytes → ℕ → Pcb → S → S × Pcb × ℤ × Option Bytes
  read_with none i buf len p s = (s, p, failure, buf)
  read_with (some ops) i buf len p s =
      let d = descriptor p i in
      if can_read ops
      then store_position i p (drivers.read ops d.inode buf len d.file_pos s)
      else (s, p, failure, buf)

  unfoldable pub file_descriptor_table_read :
      ℤ → Option Bytes → ℤ → Pcb → S → S × Pcb × ℤ × Option Bytes
  unfolding read_with
  file_descriptor_table_read (negsuc n) buf len p s = (s, p, failure, buf)
  file_descriptor_table_read (pos i) buf len p s =
      if leb max_num_files i
      then (s, p, failure, buf)
      else read_with (descriptor p i).file_ops i buf (to_uint32 len) p s

  write_with : Option FileOps → ℕ → Option Bytes → ℕ → Pcb → S → S × Pcb × ℤ × Option Bytes
  write_with none i buf len p s = (s, p, failure, buf)
  write_with (some ops) i buf len p s =
      let d = descriptor p i in
      if can_write ops
      then store_position i p (drivers.write ops d.inode buf len d.file_pos s)
      else (s, p, failure, buf)

  unfoldable pub file_descriptor_table_write :
      ℤ → Option Bytes → ℤ → Pcb → S → S × Pcb × ℤ × Option Bytes
  unfolding write_with
  file_descriptor_table_write (negsuc n) buf len p s = (s, p, failure, buf)
  file_descriptor_table_write (pos i) buf len p s =
      if leb max_num_files i
      then (s, p, failure, buf)
      else write_with (descriptor p i).file_ops i buf (to_uint32 len) p s
