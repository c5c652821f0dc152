-- ===== src/Programs/Cat/Prints.antt =====
-- The cat program prints the whole of its file.
use light_os_a_linus_like_os.Common.{
  ℕ, suc, ◌+◌, ◌-◌, ◌/◌, ◌^◌, ◌<◌, ◌≤◌, ◌≡◌, ◌≢◌, refl, ap, ◌∙◌, pos, to_int32, to_int32-small,
  Option, some, arith,
}
use light_os_a_linus_like_os.Memory.{Bytes, memcpy}
use light_os_a_linus_like_os.CString.{strlen}
use light_os_a_linus_like_os.CString.Length.{IsLength, strlen-IsLength}
use light_os_a_linus_like_os.Kernel.{
  terminal_file_ops_stdout, ece391_file_ops, FileDescriptor, Pcb, Kernel, set_pcb,
}
use light_os_a_linus_like_os.Console.{put_all}
use light_os_a_linus_like_os.Printf.Texts.{slice}
use light_os_a_linus_like_os.FileSystem.{DirEntry, read_dentry_by_name, inode_count, inode_length}
use light_os_a_linus_like_os.FileSystem.Data.{file_byte}
use light_os_a_linus_like_os.Descriptors.{descriptor, file_descriptor_table_open}
use light_os_a_linus_like_os.Descriptors.Open.{IsTable, IsFirstFree, open_file}
use light_os_a_linus_like_os.Devices.{World, set_kernel}
use light_os_a_linus_like_os.Process.Calls.{syscall_open, syscall_getargs}
use light_os_a_linus_like_os.Process.Calls.Transfers.{syscall_open-table}
use light_os_a_linus_like_os.Programs.Cat.{cat_loop, cat}
use light_os_a_linus_like_os.Programs.Steps.{reading, Reads}
use light_os_a_linus_like_os.Programs.Cat.Loop.{loop_lem}

getargs_copy :
    (stack : Bytes) (k : Kernel) (len : ℕ)
    → k.argument_exist ≢ 0
    → IsLength (k.pcbs k.active_pid).arg_buf len
    → len ≤ 1024
    → syscall_getargs (some stack) (pos 1024) k
      ≡ (pos 0, some (memcpy (suc len) 0 0 (k.pcbs k.active_pid).arg_buf stack))
unfolding syscall_getargs
getargs_copy stack k len given is_len few =
    let e : strlen (k.pcbs k.active_pid).arg_buf ≡ len =
      strlen-IsLength (k.pcbs k.active_pid).arg_buf len is_len (omega arith) in
    rw e (ground arith)

-- `main` up to its loop.
cat_start :
    (boot : Option Bytes) (rounds : ℕ) (stack : Bytes) (w : World) (name : Bytes) (fd : ℕ)
    (k' : Kernel)
    → syscall_getargs (some stack) (pos 1024) w.kernel ≡ (pos 0, some name)
    → syscall_open boot (some name) w.kernel ≡ (pos fd, k')
    → cat boot rounds stack w ≡ cat_loop boot rounds (pos fd) name (set_kernel k' w)
unfolding cat
cat_start boot rounds stack w name fd k' e f = rw (e, f) refl

-- The cat program, called with the name of a file by a process whose descriptor 1 is the terminal
-- and that has a descriptor from 2 on left, exits with 0 and has printed exactly the bytes of the
-- file, once each and in order, on its terminal; else only its own control block has changed, and
-- its loop takes at most one round for each 1024 bytes and two more. The file's inode is not 0 and
-- its length no negative `int32_t`.
pub cat_lem :
    (image stack : Bytes) (w : World) (len i fd : ℕ) (entry : DirEntry)
    → w.kernel.argument_exist ≢ 0
    → IsLength (w.kernel.pcbs w.kernel.active_pid).arg_buf len
    → len ≤ 1024
    → IsTable (w.kernel.pcbs w.kernel.active_pid)
    → IsFirstFree (w.kernel.pcbs w.kernel.active_pid) 2 fd
    → fd < 8
    → (descriptor (w.kernel.pcbs w.kernel.active_pid) 1).file_ops ≡ some terminal_file_ops_stdout
    → read_dentry_by_name
        (some image)
        (some (memcpy (suc len) 0 0 (w.kernel.pcbs w.kernel.active_pid).arg_buf stack))
      ≡ some entry
    → entry.filetype ≡ 2
    → entry.inode_num ≡ suc i
    → suc i < inode_count image
    → suc i < 2 ^ 31
    → inode_length image (suc i) < 2 ^ 31
    → (p' : Pcb) × (cat (some image) (2 + inode_length image (suc i) / 1024) stack w
        ≡ some (
          0,
          set_kernel
              (set_pcb w.kernel.active_pid p'
                (put_all (slice (file_byte image (suc i)) 0 (inode_length image (suc i))) w.kernel))
              w,
        ))
cat_lem image stack w len i fd entry given is_len few table free high out found is_file node inside
      small short =
    let k = w.kernel in
    let p = k.pcbs k.active_pid in
    let name = memcpy (suc len) 0 0 p.arg_buf stack in
    let o = open_file (some image) (some name) p fd entry table free high found is_file in
    let p1 = (file_descriptor_table_open (some image) (some name) p).1 in
    let inode : to_int32 entry.inode_num ≡ pos (suc i) = rw node (to_int32-small (suc i) small) in
    let reads : Reads ece391_file_ops (pos (suc i)) fd 0 p1 = record {
      table = o.3;
      source = o.1 ∙ ap (λ n. reading ece391_file_ops n 0) inode;
      out = ap (λ (d : FileDescriptor). d.file_ops) (o.2 1 (omega (arith, free.low))) ∙ out;
    } in
    let (p', runs) =
      loop_lem image i fd free.low high inside short (1 + inode_length image (suc i) / 1024) 0 p1 k
        name w reads (omega arith) in
    let all : inode_length image (suc i) - 0 ≡ inode_length image (suc i) = omega arith in
    let rounds : 2 + inode_length image (suc i) / 1024
        ≡ suc (1 + inode_length image (suc i) / 1024) =
      omega arith in
    (
      p',
      ap (λ n. cat (some image) n stack w) rounds
          ∙ cat_start (some image) (suc (1 + inode_length image (suc i) / 1024)) stack w name fd
              (set_pcb k.active_pid p1 k) (getargs_copy stack k len given is_len few)
              (syscall_open-table (some image) (some name) k (pos fd) o.0)
          ∙ runs
          ∙ ap
              (λ m. some (
                0,
                set_kernel
                    (set_pcb k.active_pid p' (put_all (slice (file_byte image (suc i)) 0 m) k)) w,
              ))
              all,
    )
