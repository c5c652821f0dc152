-- ===== src/Programs/Ls/Prints.antt =====
-- What the ls program prints, and how it ends.
use light_os_a_linus_like_os.Common.{
  ℕ, suc, ◌^◌, ◌<◌, ◌≡◌, refl, ap, sym, ◌∙◌, pos, to_int32-small, Option, some, min, ◌++◌, arith,
}
use light_os_a_linus_like_os.Memory.{Bytes}
use light_os_a_linus_like_os.Text.{codes, bytes_of}
use light_os_a_linus_like_os.Kernel.{
  terminal_file_ops_stdout, ece391_dir_ops, FileDescriptor, Pcb, Kernel, set_pcb,
}
use light_os_a_linus_like_os.Console.{put_all}
use light_os_a_linus_like_os.Printf.Texts.{put_all-++}
use light_os_a_linus_like_os.FileSystem.{DirEntry, read_dentry_by_name, inode_count}
use light_os_a_linus_like_os.Descriptors.{descriptor, file_descriptor_table_open}
use light_os_a_linus_like_os.Descriptors.Open.{IsTable, IsFirstFree, open_directory}
use light_os_a_linus_like_os.Devices.{World, set_kernel}
use light_os_a_linus_like_os.Process.Calls.{syscall_open}
use light_os_a_linus_like_os.Process.Calls.Transfers.{syscall_open-table}
use light_os_a_linus_like_os.Programs.Steps.{reading, Reads}
use light_os_a_linus_like_os.Programs.Ls.{ls_loop, ls}
use light_os_a_linus_like_os.Programs.Ls.Lines.{names, message, status}
use light_os_a_linus_like_os.Programs.Ls.Loop.{loop_lem}

-- `main` up to its loop.
ls_start :
    (boot : Option Bytes) (rounds : ℕ) (stack : Bytes) (w : World) (fd : ℕ) (k' : Kernel)
    → syscall_open boot (some (bytes_of (codes "."))) w.kernel ≡ (pos fd, k')
    → ls boot rounds stack w ≡ ls_loop boot rounds (pos fd) stack (set_kernel k' w)
unfolding ls
ls_start boot rounds stack w fd k' e = rw e refl

-- The ls program, run by a process whose descriptor 1 is the terminal and that has a descriptor
-- from 2 on left, prints a line for each of the first 17 directory entries, or for as many as
-- there are inodes: the 32 bytes of the name's field, NULs included, and a newline. It exits with 0
-- only if the image has more than 17 inodes; with fewer its last read fails, it prints "directory
-- entry read failed" and exits with 3. Its loop takes one round more than lines, and else only the
-- control block of the process changes. The image has a directory with the name ".", whose inode is
-- no negative `int32_t`.
pub ls_lem :
    (image stack : Bytes) (w : World) (fd : ℕ) (entry : DirEntry)
    → IsTable (w.kernel.pcbs w.kernel.active_pid)
    → IsFirstFree (w.kernel.pcbs w.kernel.active_pid) 2 fd
    → fd < 8
    → (descriptor (w.kernel.pcbs w.kernel.active_pid) 1).file_ops ≡ some terminal_file_ops_stdout
    → read_dentry_by_name (some image) (some (bytes_of (codes "."))) ≡ some entry
    → entry.filetype ≡ 1
    → entry.inode_num < 2 ^ 31
    → let lines = min (inode_count image) 17 in
      (p' : Pcb) × (ls (some image) (suc lines) stack w
        ≡ some (
          status (inode_count image),
          set_kernel
              (set_pcb w.kernel.active_pid p'
                (put_all (names image 0 lines ++ message (inode_count image)) w.kernel))
              w,
        ))
ls_lem image stack w fd entry table free high out found is_directory small =
    let k = w.kernel in
    let p = k.pcbs k.active_pid in
    let dot = bytes_of (codes ".") in
    let lines = min (inode_count image) 17 in
    let o = open_directory (some image) (some dot) p fd entry table free high found is_directory in
    let p1 = (file_descriptor_table_open (some image) (some dot) p).1 in
    let reads : Reads ece391_dir_ops (pos entry.inode_num) fd 0 p1 = record {
      table = o.3;
      source = o.1 ∙ ap (λ n. reading ece391_dir_ops n 0) (to_int32-small entry.inode_num small);
      out = ap (λ (d : FileDescriptor). d.file_ops) (o.2 1 (omega (arith, free.low))) ∙ out;
    } in
    let (p', runs) =
      loop_lem image entry.inode_num fd free.low high lines 0 p1 k stack w reads (omega arith) in
    (
      p',
      ls_start (some image) (suc lines) stack w fd (set_pcb k.active_pid p1 k)
            (syscall_open-table (some image) (some dot) k (pos fd) o.0)
          ∙ runs
          ∙ ap (λ v. some (status (inode_count image), set_kernel (set_pcb k.active_pid p' v) w))
              (sym (put_all-++ (names image 0 lines) (message (inode_count image)) k)),
    )
