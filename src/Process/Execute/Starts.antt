-- ===== src/Process/Execute/Starts.antt =====
-- That `syscall_execute` of syscall.c starts a program.
use native.Mathlib.Nat.{zero-add}
use light_os_a_linus_like_os.Common.{
  ℕ, ◌+◌, ◌-◌, ◌^◌, ◌<◌, ◌≤◌, ◌≡◌, refl, ◌≢◌, ap, sym, ◌∙◌, pos, failure, Option, some, true, false,
  List, [], ◌∷◌, ◌++◌, length, get_or, set, min, ltb, ◌==◌, ==_no, arith, lt→ltb,
}
use light_os_a_linus_like_os.Memory.{Bytes}
use light_os_a_linus_like_os.Text.{bytes_of}
use light_os_a_linus_like_os.CString.{strlen}
use light_os_a_linus_like_os.CString.Length.{strlen-IsLength}
use light_os_a_linus_like_os.Kernel.{Kernel}
use light_os_a_linus_like_os.FileSystem.{
  DirEntry, inode_count, inode_length, read_dentry_by_name, read_data,
}
use light_os_a_linus_like_os.FileSystem.Data.{file_byte, read_data_lem}
use light_os_a_linus_like_os.FileSystem.Ops.{file_open}
use light_os_a_linus_like_os.Paging.{}
use light_os_a_linus_like_os.Process.Pool.Free.{IsFirst, get_process_available_lem}
use light_os_a_linus_like_os.Process.Command.Words.{Words, name_lem, argument_lem}
use light_os_a_linus_like_os.Process.Execute.{
  max_arg_length, max_file_size, started, is_executable, start_process, allocate, check_magic,
  check_open, check_entry, keep_argument, syscall_execute,
}
use light_os_a_linus_like_os.Process.Execute.Loads.{
  IsStarted, claimed, length-ended, start_process-IsStarted,
}

-- The file at an inode is a program that fits in memory: it starts with the four bytes of an
-- executable file.
pub record IsProgramFile (image : Bytes) (i : ℕ) : Type 0 where
  pub inside : i < inode_count image
  pub small : i < 2 ^ 31
  pub has_head : 4 ≤ inode_length image i
  pub fits : inode_length image i ≤ max_file_size
  pub is_program : is_executable (file_byte image i) ≡ true

read_head :
    (image stack : Bytes) (i : ℕ)
    → IsProgramFile image i
    → (out : Bytes) × (read_data (some image) (pos i) 0 (some stack) 4 ≡ (pos 4, some out))
      × (is_executable out ≡ true)
read_head image stack i p =
    let (out, reads, at) =
      read_data_lem image stack i 0 4 p.inside (omega (arith, p.has_head))
        (omega (arith, p.fits)) in
    let four : min 4 (inode_length image i - 0) ≡ 4 = omega (arith, p.has_head) in
    let byte : (j : ℕ) → j < 4 → out j ≡ file_byte image i j = λ j lt.
      let within : ltb j (min 4 (inode_length image i - 0)) ≡ true = rw four (lt→ltb j 4 lt) in
      at j ∙ rw (within, zero-add j) refl in
    (
      out,
      reads ∙ ap (λ n. (pos n, some out)) four,
      rw (byte 0 (omega arith), byte 1 (omega arith), byte 2 (omega arith), byte 3 (omega arith))
          p.is_program,
    )

check_entry-starts :
    (image stack : Bytes) (fn : Option Bytes) (entry : DirEntry) (k : Kernel) (i pid : ℕ)
    → entry.filetype ≡ 2
    → file_open (some image) failure fn ≡ (pos 0, pos i)
    → IsProgramFile image i
    → IsFirst 0 k.processes pid
    → pid < 7
    → check_entry (some image) stack fn (some entry) k
      ≡ started pid (
          start_process
            (some image)
            (pos i)
            pid
            (record k { process_count = k.process_count + 1; processes = set k.processes pid 1 }))
unfolding check_entry check_open check_magic allocate
check_entry-starts image stack fn entry k i pid is_file opens program first small =
    let (out, reads, magic) = read_head image stack i program in
    let claims =
      (get_process_available_lem (record k { process_count = k.process_count + 1 })).0 pid first
        small in
    rw (is_file, opens, reads, magic, claims) refl

opens_inode :
    (image fn : Bytes) (entry : DirEntry) (i : ℕ)
    → read_dentry_by_name (some image) (some fn) ≡ some entry
    → entry.filetype ≡ 2
    → entry.inode_num ≡ i
    → i < 2 ^ 31
    → file_open (some image) failure (some fn) ≡ (pos 0, pos i)
unfolding file_open
opens_inode image fn entry i found is_file node small =
    rw (found, is_file, node, lt→ltb i (2 ^ 31) small) refl

-- `syscall_execute` starts the program that the first word of a command names, in the first free
-- slot: with fewer than six processes counted, a command of at most 36 characters whose two words
-- have at most 32 each, and a file that is a program. The new process is active, has the caller as
-- its parent and the terminal as its own, finds the second word as its argument and the bytes
-- of the file in its page. The slot of the caller is in use.
pub syscall_execute-IsStarted :
    (image stack command : Bytes) (k : Kernel) (len before between : ℕ) (name arg : List ℕ)
    (entry : DirEntry) (i pid : ℕ)
    → Words command len before between name arg
    → len ≤ 36
    → length name ≤ 32
    → length arg ≤ 32
    → k.process_count ≢ 6
    → read_dentry_by_name (some image) (some (bytes_of (name ++ (0 ∷ [])))) ≡ some entry
    → entry.filetype ≡ 2
    → entry.inode_num ≡ i
    → IsProgramFile image i
    → IsFirst 0 k.processes pid
    → pid < 7
    → get_or k.processes k.active_pid 1 ≢ 0
    → (k' : Kernel) × (syscall_execute (some image) stack command k ≡ started pid k')
      × IsStarted image i pid arg k k'
unfolding syscall_execute
syscall_execute-IsStarted image stack command k len before between name arg entry i pid w l n a c
      found is_file node program first small used =
    let long : strlen command ≡ len = strlen-IsLength command len w.is_length (omega arith) in
    let counted : (k.process_count == 6) ≡ false = ==_no k.process_count 6 c in
    let short : ltb (max_arg_length + 4) (len + 1) ≡ false = ground arith in
    let name_fits : ltb 33 (length (name ++ (0 ∷ []))) ≡ false =
      rw (length-ended name) (ground arith) in
    let arg_fits : ltb max_arg_length (length (arg ++ (0 ∷ []))) ≡ false =
      rw (length-ended arg) (ground arith) in
    (
      start_process (some image) (pos i) pid (claimed arg pid k),
      rw
          (
            long,
            counted,
            short,
            name_lem command len before between name arg w,
            argument_lem command len before between name arg w,
            name_fits,
            arg_fits,
            found,
          )
          (check_entry-starts image stack (some (bytes_of (name ++ (0 ∷ [])))) entry
            (keep_argument (arg ++ (0 ∷ [])) k) i pid is_file
            (opens_inode image (bytes_of (name ++ (0 ∷ []))) entry i found is_file node
              program.small)
            program first small),
      start_process-IsStarted image i pid arg k program.inside program.fits small other,
    )
  where
    other : pid ≢ k.active_pid
    other e = used (ap (λ p. get_or k.processes p 1) (sym e) ∙ first.1)
