-- ===== src/Programs/Steps.antt =====
-- One read and one write of a program, through the kernel: system call, descriptor table, driver.
use native.Mathlib.Nat.{add-zero, zero-add}
use light_os_a_linus_like_os.Common.{
  ℕ, zero, suc, ◌+◌, ◌^◌, ◌<◌, ◌≤◌, ◌≡◌, refl, ap, ◌∙◌, fun_ext, ℤ, pos, Option, some, List, [],
  ◌∷◌, ◌++◌, leb, arith, true, false, ==_self,
}
use light_os_a_linus_like_os.Memory.{Bytes}
use light_os_a_linus_like_os.Kernel.{
  FileOps, terminal_file_ops_stdout, FileDescriptor, Pcb, Kernel, set_pcb,
}
use light_os_a_linus_like_os.Console.{putc, put_all}
use light_os_a_linus_like_os.Printf.Texts.{slice}
use light_os_a_linus_like_os.FileSystem.Ops.{is_null}
use light_os_a_linus_like_os.TerminalDriver.Writes.{terminal_write-put_all}
use light_os_a_linus_like_os.Descriptors.{
  descriptor, set_descriptor, can_read, file_descriptor_table_read, file_descriptor_table_write,
}
use light_os_a_linus_like_os.Descriptors.Open.{
  IsTable, descriptor-set_self, descriptor-set_ne, set_descriptor-IsTable,
}
use light_os_a_linus_like_os.Devices.{World, set_kernel, devices}
use light_os_a_linus_like_os.Process.Calls.{syscall_read, syscall_write}
use light_os_a_linus_like_os.Process.Calls.Transfers.{syscall_read-table, syscall_write-table}

pub slice-++ : (s : Bytes) (i a b : ℕ) → slice s i a ++ slice s (i + a) b ≡ slice s i (a + b)
slice-++ s i zero b = rw (add-zero i, zero-add b) refl
slice-++ s i (suc a) b =
    let start : i + suc a ≡ suc i + a = omega arith in
    let total : suc a + b ≡ suc (a + b) = omega arith in
    rw (start, total) (ap (λ l. s i ∷ l) (slice-++ s (suc i) a b))

pub slice-same :
    (s t : Bytes) (i j n : ℕ)
    → ((o : ℕ) → o < n → s (i + o) ≡ t (j + o))
    → slice s i n ≡ slice t j n
slice-same s t i j zero h = refl
slice-same s t i j (suc n) h =
    let first : s i ≡ t j = ap s (omega arith) ∙ h 0 (omega arith) ∙ ap t (omega arith) in
    let rest : slice s (suc i) n ≡ slice t (suc j) n =
      slice-same s t (suc i) (suc j) n
        (λ o lt. ap s (omega arith) ∙ h (suc o) (omega arith) ∙ ap t (omega arith)) in
    rw (first, rest) refl

pub set_pcb-twice :
    (pid : ℕ) (p q : Pcb) (k : Kernel) → set_pcb pid q (set_pcb pid p k) ≡ set_pcb pid q k
set_pcb-twice pid p q k = ap (λ f. record k { pcbs = f }) (fun_ext λ i. ground arith)

pub set_pcb_self : (pid : ℕ) (p : Pcb) (k : Kernel) → (set_pcb pid p k).pcbs pid ≡ p
set_pcb_self pid p k = rw (==_self pid) refl

-- Printing does not look at the control blocks.
put_all-set_pcb :
    (cs : List ℕ) (pid : ℕ) (p : Pcb) (k : Kernel)
    → put_all cs (set_pcb pid p k) ≡ set_pcb pid p (put_all cs k)
unfolding put_all putc
put_all-set_pcb [] pid p k = refl
put_all-set_pcb (c ∷ cs) pid p k = put_all-set_pcb cs pid p (putc c k)

pub put_all-active_pid : (cs : List ℕ) (k : Kernel) → (put_all cs k).active_pid ≡ k.active_pid
unfolding put_all putc
put_all-active_pid [] k = refl
put_all-active_pid (c ∷ cs) k = put_all-active_pid cs (putc c k)

pub is_null-pos : (n : ℕ) → 0 < n → is_null (pos n) ≡ false
is_null-pos zero h = absurd (omega arith)
is_null-pos (suc n) h = refl

-- A descriptor in use.
abbrev pub reading : FileOps → ℤ → ℕ → FileDescriptor
reading ops inode offset = record {
  file_ops = some ops;
  inode = inode;
  file_pos = offset;
  flags = 1;
}

-- The process reads through a descriptor and writes to the terminal through descriptor 1.
pub record Reads (ops : FileOps) (inode : ℤ) (fd offset : ℕ) (p : Pcb) : Type 0 where
  pub table : IsTable p
  pub source : descriptor p fd ≡ reading ops inode offset
  pub out : (descriptor p 1).file_ops ≡ some terminal_file_ops_stdout

-- What the table becomes by a write.
abbrev pub written : Pcb → Pcb
written p = let d = descriptor p 1 in set_descriptor 1 (record d { file_pos = d.file_pos }) p

module _ (boot : Option Bytes) where
  pub table_write :
      (p : Pcb) (w : World) (buf : Bytes) (n : ℕ)
      → (descriptor p 1).file_ops ≡ some terminal_file_ops_stdout
      → 0 < n
      → n < 2 ^ 31
      → file_descriptor_table_write (devices boot) (pos 1) (some buf) (pos n) p w
        ≡ (set_kernel (put_all (slice buf 0 n) w.kernel) w, written p, pos n, some buf)
  unfolding file_descriptor_table_write
  table_write p w buf n out positive small =
      let shown = set_kernel (put_all (slice buf 0 n) w.kernel) w in
      let d = descriptor p 1 in
      rw (out, terminal_write-put_all n buf w.kernel positive small)
        (ap (λ o. (shown, set_descriptor 1 (record d { file_ops = o }) p, pos n, some buf)) out)

  pub write_step :
      (p : Pcb) (kk : Kernel) (w : World) (buf : Bytes) (n : ℕ)
      → (descriptor p 1).file_ops ≡ some terminal_file_ops_stdout
      → 0 < n
      → n < 2 ^ 31
      → syscall_write boot (pos 1) (some buf) (pos n) (set_kernel (set_pcb kk.active_pid p kk) w)
        ≡ (
          set_kernel (set_pcb kk.active_pid (written p) (put_all (slice buf 0 n) kk)) w,
          pos n,
          some buf,
        )
  write_step p kk w buf n out positive small =
      let w0 = set_kernel (set_pcb kk.active_pid p kk) w in
      let shown = put_all (slice buf 0 n) in
      syscall_write-table boot (pos 1) (pos n) (pos n) (some buf) (some buf) w0
        (set_kernel (shown w0.kernel) w) (written p)
        (ap (λ q. file_descriptor_table_write (devices boot) (pos 1) (some buf) (pos n) q w0)
            (set_pcb_self kk.active_pid p kk)
          ∙ table_write p w0 buf n out positive small)
      ∙ ap (λ k. (set_kernel (set_pcb kk.active_pid (written p) k) w, pos n, some buf))
          (put_all-set_pcb (slice buf 0 n) kk.active_pid p kk)
      ∙ ap (λ k. (set_kernel k w, pos n, some buf))
          (set_pcb-twice kk.active_pid p (written p) (shown kk))

module _ (boot : Option Bytes) (ops : FileOps) (readable : can_read ops ≡ true) (inode : ℤ) (fd : ℕ)
    (low : 2 ≤ fd) (high : fd < 8) where
  abbrev pub moved : ℕ → Pcb → Pcb
  moved offset = set_descriptor fd (reading ops inode offset)

  table_read :
      (offset offset' len : ℕ) (p : Pcb) (w : World) (buf buf' : Bytes) (result : ℤ)
      → Reads ops inode fd offset p
      → (devices boot).read ops inode (some buf) len offset w ≡ (w, result, some buf', offset')
      → file_descriptor_table_read (devices boot) (pos fd) (some buf) (pos len) p w
        ≡ (w, moved offset' p, result, some buf')
  unfolding file_descriptor_table_read
  table_read offset offset' len p w buf buf' result h reads =
      let open_fd : leb 8 fd ≡ false = ground arith in
      let has_ops : (descriptor p fd).file_ops ≡ some ops =
        ap (λ (d : FileDescriptor). d.file_ops) h.source in
      let node : (descriptor p fd).inode ≡ inode = ap (λ (d : FileDescriptor). d.inode) h.source in
      let place : (descriptor p fd).file_pos ≡ offset =
        ap (λ (d : FileDescriptor). d.file_pos) h.source in
      let used : (descriptor p fd).flags ≡ 1 = ap (λ (d : FileDescriptor). d.flags) h.source in
      let d' : FileDescriptor = reading ops inode offset' in
      rw (open_fd, has_ops, readable, node, place, reads, used)
        (ap (λ o. (w, set_descriptor fd (record d' { file_ops = o }) p, result, some buf')) has_ops)

  pub read_step :
      (offset offset' len : ℕ) (p : Pcb) (kk : Kernel) (w : World) (buf buf' : Bytes) (result : ℤ)
      → Reads ops inode fd offset p
      → ((v : World)
          → (devices boot).read ops inode (some buf) len offset v ≡ (v, result, some buf', offset'))
      → syscall_read boot (pos fd) (some buf) (pos len) (set_kernel (set_pcb kk.active_pid p kk) w)
        ≡ (set_kernel (set_pcb kk.active_pid (moved offset' p) kk) w, result, some buf')
  read_step offset offset' len p kk w buf buf' result h reads =
      let w0 = set_kernel (set_pcb kk.active_pid p kk) w in
      let p' = moved offset' p in
      syscall_read-table boot (pos fd) (pos len) result (some buf) (some buf') w0 w0 p' (
        ap (λ q. file_descriptor_table_read (devices boot) (pos fd) (some buf) (pos len) q w0)
          (set_pcb_self kk.active_pid p kk)
        ∙ table_read offset offset' len p w0 buf buf' result h (reads w0))
      ∙ ap (λ k. (set_kernel k w, result, some buf')) (set_pcb-twice kk.active_pid p p' kk)

  pub moved-Reads :
      (offset offset' : ℕ) (p : Pcb)
      → Reads ops inode fd offset p
      → Reads ops inode fd offset' (moved offset' p)
  moved-Reads offset offset' p h = record {
    table = set_descriptor-IsTable p fd (reading ops inode offset') h.table;
    source = descriptor-set_self p fd (reading ops inode offset') h.table high;
    out =
        ap (λ (d : FileDescriptor). d.file_ops)
          (descriptor-set_ne p fd 1 (reading ops inode offset') (omega arith))
        ∙ h.out;
  }

  pub written-Reads :
      (offset : ℕ) (p : Pcb) → Reads ops inode fd offset p → Reads ops inode fd offset (written p)
  written-Reads offset p h = record {
    table = set_descriptor-IsTable p 1 (descriptor p 1) h.table;
    source = descriptor-set_ne p 1 fd (descriptor p 1) (omega arith) ∙ h.source;
    out =
        ap (λ (d : FileDescriptor). d.file_ops)
          (descriptor-set_self p 1 (descriptor p 1) h.table (omega arith))
        ∙ h.out;
  }
