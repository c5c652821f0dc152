-- ===== src/Process/Execute/Loads.antt =====
-- What a process that `syscall_execute` of syscall.c has set up finds.
use native.Mathlib.Nat.{zero-add}
use light_os_a_linus_like_os.Common.{
  ℕ, zero, suc, ◌+◌, ◌-◌, ◌*◌, ◌%◌, ◌^◌, ◌<◌, ◌≤◌, ◌≡◌, refl, ◌≢◌, ap, sym, ◌∙◌, ℤ, pos, Option,
  some, true, ◌&&◌, List, [], ◌∷◌, ◌++◌, length, get_or, set, min, ltb, leb, ==_self, ==_no,
  if◌then◌else◌, arith,
}
use light_os_a_linus_like_os.Memory.{Bytes, memcpy, memcpy_lem, offset_by}
use light_os_a_linus_like_os.Text.{bytes_of}
use light_os_a_linus_like_os.Kernel.{same_self, Kernel, set_terminal, set_pcb}
use light_os_a_linus_like_os.FileSystem.{inode_count, inode_length}
use light_os_a_linus_like_os.FileSystem.Data.{file_byte, read_data_lem}
use light_os_a_linus_like_os.Paging.{
  paging_execute, paging_video_memory, virtual_address_program_start,
}
use light_os_a_linus_like_os.Process.Switching.{user_page, context_switch_execute}
use light_os_a_linus_like_os.Process.Execute.{
  max_arg_length, max_file_size, put_back, load_program, new_pcb, start_process, keep_argument,
}

-- A program is read to its place in the user's page.
load_program-memory :
    (image : Bytes) (i : ℕ) (k : Kernel) (j : ℕ)
    → i < inode_count image
    → inode_length image i ≤ max_file_size
    → j < inode_length image i
    → (load_program (some image) (pos i) k).memory
        (user_page k + virtual_address_program_start % 2 ^ 22 + j)
      ≡ file_byte image i j
unfolding load_program
load_program-memory image i k j inside short lt =
    let base = user_page k + virtual_address_program_start % 2 ^ 22 in
    let (out, reads, at) =
      read_data_lem image (offset_by base k.memory) i 0 max_file_size inside (omega arith)
        (omega arith) in
    let back : base + j - base ≡ j = omega arith in
    let first : 0 + j ≡ j = zero-add j in
    let behind : leb base (base + j) ≡ true = ground arith in
    let within : ltb j (min max_file_size (inode_length image i - 0)) ≡ true = ground arith in
    ap (λ r. put_back base r.1 k.memory (base + j)) reads
    ∙ rw (behind, back) (at j ∙ rw (within, first) refl)

-- The kernel in which the program is loaded.
abbrev loading : ℕ → Kernel → Kernel
loading pid k =
    let t = k.terminals k.active_terminal in
    let k1 = set_pcb pid (new_pcb pid k) k in
    paging_video_memory (
      paging_execute pid
        (set_terminal k.active_terminal (record t { current_process_id = pid }) k1))

loading-page :
    (pid : ℕ) (k : Kernel)
    → user_page (loading pid k) ≡ (0x00400 + 0x00400 + pid * 0x00400) % 2 ^ 20 * 4096
unfolding paging_execute paging_video_memory
loading-page pid k = refl

start_process-memory :
    (boot : Option Bytes) (inode : ℤ) (pid : ℕ) (k : Kernel)
    → (start_process boot inode pid k).memory ≡ (load_program boot inode (loading pid k)).memory
unfolding start_process context_switch_execute
start_process-memory boot inode pid k = refl

-- What a process that was started finds.
pub record IsStarted (image : Bytes) (i pid : ℕ) (arg : List ℕ) (k k' : Kernel) : Type 0 where
  pub is_active : k'.active_pid ≡ pid
  pub is_claimed : k'.processes ≡ set k.processes pid 1
  pub has_parent : (k'.pcbs pid).parent_pid ≡ k.active_pid
  pub has_process : (k'.terminals k.active_terminal).current_process_id ≡ pid
  pub has_argument : (j : ℕ) → j < max_arg_length → (k'.pcbs pid).arg_buf j ≡ get_or arg j 0
  pub knows_argument : k'.argument_exist ≡ (if ltb 0 (length arg) then 1 else 0)
  pub has_program :
      (j : ℕ)
      → j < inode_length image i
      → k'.memory ((2 + pid) * 2 ^ 22 + virtual_address_program_start % 2 ^ 22 + j)
        ≡ file_byte image i j

-- The kernel once the command is taken apart and the slot is claimed.
abbrev pub claimed : List ℕ → ℕ → Kernel → Kernel
claimed arg pid k =
    let k' = keep_argument (arg ++ (0 ∷ [])) k in
    record k' { process_count = k.process_count + 1; processes = set k.processes pid 1 }

pub length-ended : (cs : List ℕ) → length (cs ++ (0 ∷ [])) ≡ suc (length cs)
length-ended [] = refl
length-ended (c ∷ cs) = ap suc (length-ended cs)

get_or-ended : (cs : List ℕ) (j : ℕ) → get_or (cs ++ (0 ∷ [])) j 0 ≡ get_or cs j 0
get_or-ended [] zero = refl
get_or-ended [] (suc j) = refl
get_or-ended (c ∷ cs) zero = refl
get_or-ended (c ∷ cs) (suc j) = get_or-ended cs j

pub start_process-IsStarted :
    (image : Bytes) (i pid : ℕ) (arg : List ℕ) (k : Kernel)
    → i < inode_count image
    → inode_length image i ≤ max_file_size
    → pid < 7
    → pid ≢ k.active_pid
    → IsStarted image i pid arg k (start_process (some image) (pos i) pid (claimed arg pid k))
unfolding start_process load_program context_switch_execute paging_execute paging_video_memory
start_process-IsStarted image i pid arg k inside short small ne = record {
  is_active = refl;
  is_claimed = refl;
  has_parent = rw (==_no k.active_pid pid (λ e. ne (sym e)), ==_self pid) refl;
  has_process = rw (same_self k.active_terminal) refl;
  has_argument =
      λ j lt. rw (==_no k.active_pid pid (λ e. ne (sym e)), ==_self pid) (argument j _ lt);
  knows_argument = exist;
  has_program = λ j lt.
      ap (λ (f : Bytes). f ((2 + pid) * 2 ^ 22 + virtual_address_program_start % 2 ^ 22 + j))
        (start_process-memory (some image) (pos i) pid (claimed arg pid k))
      ∙ ap (load_program (some image) (pos i) (loading pid (claimed arg pid k))).memory (page j)
      ∙ load_program-memory image i (loading pid (claimed arg pid k)) j inside short lt;
}
  where
    exist : (claimed arg pid k).argument_exist ≡ (if ltb 0 (length arg) then 1 else 0)
    exist = rw (length-ended arg) (ground arith)

    argument :
        (j : ℕ) (old : Bytes)
        → j < 33
        → memcpy 33 0 0 (bytes_of (arg ++ (0 ∷ []))) old j ≡ get_or arg j 0
    argument j old lt =
        let within : (leb 0 j && ltb j (0 + 33)) ≡ true = ground arith in
        let place : 0 + (j - 0) ≡ j = omega arith in
        memcpy_lem 33 0 0 (bytes_of (arg ++ (0 ∷ []))) old j
        ∙ rw (within, place) (get_or-ended arg j)

    page :
        (j : ℕ)
        → (2 + pid) * 2 ^ 22 + virtual_address_program_start % 2 ^ 22 + j
          ≡ user_page (loading pid (claimed arg pid k)) + virtual_address_program_start % 2 ^ 22 + j
    page j =
        let frame : (2 + pid) * 2 ^ 22 ≡ (0x00400 + 0x00400 + pid * 0x00400) % 2 ^ 20 * 4096 =
          omega arith in
        ap (λ b. b + virtual_address_program_start % 2 ^ 22 + j)
          (frame ∙ sym (loading-page pid (claimed arg pid k)))
