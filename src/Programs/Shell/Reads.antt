-- ===== src/Programs/Shell/Reads.antt =====
-- The prompt of the shell, and the command that it reads from the terminal.
use light_os_a_linus_like_os.Common.{
  ℕ, ◌<◌, ◌^◌, ◌≡◌, refl, ap, sym, ◌∙◌, ℤ, pos, Option, some, List, [], ◌∷◌, length, true, arith,
}
use light_os_a_linus_like_os.Memory.{Bytes}
use light_os_a_linus_like_os.CString.Length.{strlen-IsLength}
use light_os_a_linus_like_os.Text.{bytes_of, has_no_nul, bytes_of-IsLength}
use light_os_a_linus_like_os.Kernel.{
  terminal_file_ops_stdin, terminal_file_ops_stdout, Pcb, Kernel, Terminal, set_pcb,
}
use light_os_a_linus_like_os.Console.{putc, put_all}
use light_os_a_linus_like_os.Console.Keeps.{put_all-Keeps}
use light_os_a_linus_like_os.Printf.Texts.{slice, slice-bytes_of}
use light_os_a_linus_like_os.Keyboard.{key_of}
use light_os_a_linus_like_os.TerminalDriver.{returned, terminal_read}
use light_os_a_linus_like_os.TerminalDriver.Typing.Reads.{IsIdle}
use light_os_a_linus_like_os.Descriptors.{descriptor, set_descriptor, file_descriptor_table_read}
use light_os_a_linus_like_os.Devices.{World, set_kernel, devices}
use light_os_a_linus_like_os.Process.Calls.{syscall_read, syscall_write}
use light_os_a_linus_like_os.Process.Calls.Transfers.{syscall_read-table, syscall_write-table}
use light_os_a_linus_like_os.Programs.{ece391_fdputs}
use light_os_a_linus_like_os.Programs.Steps.{written, table_write}

-- What printing on the terminal leaves.
abbrev pub said : List ℕ → World → World
said cs w =
    let k = w.kernel in
    set_kernel (set_pcb k.active_pid (written (k.pcbs k.active_pid)) (put_all cs k)) w

pub ece391_fdputs-said :
    (boot : Option Bytes) (cs : List ℕ) (w : World)
    → (descriptor (w.kernel.pcbs w.kernel.active_pid) 1).file_ops ≡ some terminal_file_ops_stdout
    → has_no_nul cs ≡ true
    → 0 < length cs
    → length cs < 2 ^ 31
    → ece391_fdputs boot (pos 1) (bytes_of cs) w ≡ said cs w
unfolding ece391_fdputs
ece391_fdputs-said boot cs w out full positive small =
    let k = w.kernel in
    let p = k.pcbs k.active_pid in
    let s = bytes_of cs in
    let long = strlen-IsLength s (length cs) (bytes_of-IsLength cs full) (omega arith) in
    ap (λ n. (syscall_write boot (pos 1) (some s) (pos n) w).0) long
    ∙ ap (λ r. r.0)
        (syscall_write-table boot (pos 1) (pos (length cs)) (pos (length cs)) (some s) (some s) w
          (set_kernel (put_all (slice s 0 (length cs)) k) w) (written p)
          (table_write boot p w s (length cs) out positive small))
    ∙ ap (λ l. set_kernel (set_pcb k.active_pid (written p) (put_all l k)) w) (slice-bytes_of cs)

put_all-keys :
    (cs : List ℕ) (k : Kernel)
    → ((put_all cs k).ctrl_pressed ≡ k.ctrl_pressed)
      × ((input : ℕ) → key_of input (put_all cs k) ≡ key_of input k)
unfolding put_all putc key_of
put_all-keys [] k = (refl, λ input. refl)
put_all-keys (c ∷ cs) k = put_all-keys cs (putc c k)

-- The terminal stays idle while something is printed.
pub said-IsIdle : (cs : List ℕ) (w : World) → IsIdle w.kernel → IsIdle (said cs w).kernel
said-IsIdle cs w h =
    let k = w.kernel in
    let kept = put_all-Keeps cs k in
    let same = ap (put_all cs k).terminals kept.current ∙ kept.terminals k.current_terminal in
    record {
      scheduled = kept.active ∙ h.scheduled ∙ sym kept.current;
      no_control = (put_all-keys cs k).0 ∙ h.no_control;
      empty = ap (λ (t : Terminal). t.keyboard_buffer_size) same ∙ h.empty;
      buffer = ap (λ (t : Terminal). length t.key_buf) same ∙ h.buffer;
    }

pub said-overflow :
    (cs : List ℕ) (w : World)
    → let k' = (said cs w).kernel in
      (k'.terminals k'.current_terminal).overflow
      ≡ (w.kernel.terminals w.kernel.current_terminal).overflow
said-overflow cs w =
    let k = w.kernel in
    let kept = put_all-Keeps cs k in
    ap (λ (t : Terminal). t.overflow)
      (ap (put_all cs k).terminals kept.current ∙ kept.terminals k.current_terminal)

pub said-keys :
    (cs : List ℕ) (w : World) (input : ℕ) → key_of input (said cs w).kernel ≡ key_of input w.kernel
unfolding key_of
said-keys cs w input = (put_all-keys cs w.kernel).1 input

table_terminal :
    (boot : Option Bytes) (len : ℕ) (p : Pcb) (w : World) (buf out : Bytes) (rest : List ℕ)
    (count : ℤ) (k' : Kernel)
    → (descriptor p 0).file_ops ≡ some terminal_file_ops_stdin
    → terminal_read (some buf) len w.inputs w.kernel ≡ returned k' rest count (some out)
    → (q : Pcb) × (file_descriptor_table_read (devices boot) (pos 0) (some buf) (pos len) p w
        ≡ (record w { kernel = k'; inputs = rest }, q, count, some out))
unfolding file_descriptor_table_read
table_terminal boot len p w buf out rest count k' ops reads =
    let d = descriptor p 0 in
    let v = record w { kernel = k'; inputs = rest } in
    (
      set_descriptor 0 (record d { file_pos = d.file_pos }) p,
      rw (ops, reads)
          (ap (λ o. (v, set_descriptor 0 (record d { file_ops = o }) p, count, some out)) ops),
    )

-- A read of descriptor 0 that returns.
pub read_terminal :
    (boot : Option Bytes) (len : ℕ) (w : World) (buf out : Bytes) (rest : List ℕ) (count : ℤ)
    (k' : Kernel)
    → (descriptor (w.kernel.pcbs w.kernel.active_pid) 0).file_ops ≡ some terminal_file_ops_stdin
    → terminal_read (some buf) len w.inputs w.kernel ≡ returned k' rest count (some out)
    → (w' : World) × (syscall_read boot (pos 0) (some buf) (pos len) w ≡ (w', count, some out))
      × (w'.inputs ≡ rest)
read_terminal boot len w buf out rest count k' ops reads =
    let k = w.kernel in
    let v = record w { kernel = k'; inputs = rest } in
    let (q', e) = table_terminal boot len (k.pcbs k.active_pid) w buf out rest count k' ops reads in
    (
      set_kernel (set_pcb k.active_pid q' k') v,
      syscall_read-table boot (pos 0) (pos len) count (some buf) (some out) w v q' e,
      refl,
    )
