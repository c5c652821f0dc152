-- ===== src/Programs/Shell/Commands.antt =====
-- From the keys that are typed to the command that the shell executes.
use native.Mathlib.Decide.{ℕ_discrete}
use mathlib.Core.Path.{subst}
use light_os_a_linus_like_os.Common.{
  ℕ, zero, suc, ◌+◌, ◌-◌, ◌<◌, ◌≤◌, ◌≡◌, refl, ◌≢◌, ap, sym, ◌∙◌, ℤ, pos, negsuc, is_failure,
  to_int32, to_int32-small, Option, some, min, List, [], ◌∷◌, ◌++◌, length, get_or, false, true,
  ltb, lt→ltb, ◌==◌, ==_no, ==_yes, ==_self, arith,
}
use light_os_a_linus_like_os.Memory.{Bytes, update}
use light_os_a_linus_like_os.CString.Length.{IsLength}
use light_os_a_linus_like_os.Text.{codes, bytes_of, past_end}
use light_os_a_linus_like_os.Kernel.{
  terminal_file_ops_stdin, terminal_file_ops_stdout, FileDescriptor, Pcb,
}
use light_os_a_linus_like_os.Console.{put_all}
use light_os_a_linus_like_os.FileSystem.Ops.{is_null}
use light_os_a_linus_like_os.Keyboard.{key_of}
use light_os_a_linus_like_os.TerminalDriver.Typing.{IsPlain}
use light_os_a_linus_like_os.TerminalDriver.Typing.Edits.{edited, AllTyped}
use light_os_a_linus_like_os.TerminalDriver.{returned, terminal_read}
use light_os_a_linus_like_os.TerminalDriver.Typing.Reads.{IsIdle, terminal_read-line}
use light_os_a_linus_like_os.Descriptors.{descriptor}
use light_os_a_linus_like_os.Descriptors.Open.{descriptor-set_ne}
use light_os_a_linus_like_os.Devices.{World}
use light_os_a_linus_like_os.Process.Calls.{syscall_read}
use light_os_a_linus_like_os.Programs.{put_line}
use light_os_a_linus_like_os.Programs.Steps.{written, put_all-active_pid, set_pcb_self}
use light_os_a_linus_like_os.Programs.Shell.{ece391_strcmp, command, report, shell_loop}
use light_os_a_linus_like_os.Programs.Shell.Compare.{ece391_strcmp-differ}
use light_os_a_linus_like_os.Programs.Shell.Reads.{
  said, ece391_fdputs-said, said-IsIdle, said-overflow, said-keys, read_terminal,
}

not_null : (z : ℤ) → z ≢ pos 0 → is_null z ≡ false
not_null (pos zero) ne = absurd (ne refl)
not_null (pos (suc n)) ne = refl
not_null (negsuc n) ne = refl

-- A round that reads a command.
round_lem :
    (boot : Option Bytes) (execute : Bytes → World → ℤ × World) (rounds : ℕ) (buf out : Bytes)
    (w w0 w1 : World) (cnt : ℤ)
    → put_line boot "391OS> " w ≡ w0
    → syscall_read boot (pos 0) (some buf) (pos 1023) w0 ≡ (w1, cnt, some out)
    → is_failure cnt ≡ false
    → ece391_strcmp (command cnt out) (bytes_of (codes "exit")) ≢ pos 0
    → (command cnt out 0 == 0) ≡ false
    → let (rval, w2) = execute (command cnt out) w1 in
      shell_loop boot execute (suc rounds) buf w
      ≡ shell_loop boot execute rounds (command cnt out) (report boot rval w2)
unfolding shell_loop
round_lem boot execute rounds buf out w w0 w1 cnt e r ok other full =
    rw (e, r, ok, not_null (ece391_strcmp (command cnt out) (bytes_of (codes "exit"))) other, full)
      refl

-- The newline behind a line of `n` characters becomes the NUL.
command-line : (n : ℕ) (out : Bytes) → out n ≡ b'\n' → command (pos (suc n)) out ≡ update out n 0
command-line n out e = let last : suc n - 1 ≡ n = omega arith in rw (last, e) refl

-- The prompt leaves the descriptors for reading alone.
said-stdin :
    (cs : List ℕ) (w : World)
    → let k' = (said cs w).kernel in
      (descriptor (k'.pcbs k'.active_pid) 0).file_ops
      ≡ (descriptor (w.kernel.pcbs w.kernel.active_pid) 0).file_ops
said-stdin cs w =
    let k = w.kernel in
    let k' = (said cs w).kernel in
    let p = k.pcbs k.active_pid in
    let d = descriptor p 1 in
    let d1 : FileDescriptor = record d { file_pos = d.file_pos } in
    ap (λ i. (descriptor (k'.pcbs i) 0).file_ops) (put_all-active_pid cs k)
    ∙ ap (λ (p : Pcb). (descriptor p 0).file_ops)
        (set_pcb_self k.active_pid (written p) (put_all cs k))
    ∙ ap (λ (d : FileDescriptor). d.file_ops) (descriptor-set_ne p 1 0 d1 (omega arith))

-- What the shell reads, when a line is typed.
line_read :
    (boot : Option Bytes) (keys : ℕ → ℕ) (enter : ℕ) (inputs rest : List ℕ) (buf : Bytes)
    (w : World)
    → (descriptor (w.kernel.pcbs w.kernel.active_pid) 0).file_ops ≡ some terminal_file_ops_stdin
    → IsIdle w.kernel
    → ((other : ℕ) → key_of other w.kernel ≡ keys other)
    → IsPlain enter
    → keys enter ≡ b'\n'
    → AllTyped keys (w.kernel.terminals w.kernel.current_terminal).overflow [] inputs
    → length (edited keys [] inputs) < 128
    → w.inputs ≡ inputs ++ (enter ∷ rest)
    → let line = edited keys [] inputs in
      (w' : World) × (out : Bytes) × (syscall_read boot (pos 0) (some buf) (pos 1023) w
        ≡ (w', pos (suc (length line)), some out))
      × (w'.inputs ≡ rest)
      × (out (length line) ≡ b'\n')
      × ((j : ℕ) → j < length line → out j ≡ get_or line j 0)
line_read boot keys enter inputs rest buf w stdin idle same plain is_enter typed room given =
    let line = edited keys [] inputs in
    let (k', out, reads, at) =
      terminal_read-line keys enter inputs rest w.kernel buf 1023 same plain is_enter typed room
        idle (omega arith) in
    let whole : min 1023 (length line + 1) ≡ suc (length line) = omega (arith, room) in
    let count : to_int32 (min 1023 (length line + 1)) ≡ pos (suc (length line)) =
      ap to_int32 whole ∙ to_int32-small (suc (length line)) (omega (arith, room)) in
    let reads' : terminal_read (some buf) 1023 w.inputs w.kernel
        ≡ returned k' rest (pos (suc (length line))) (some out) =
      ap (λ l. terminal_read (some buf) 1023 l w.kernel) given
      ∙ reads
      ∙ ap (λ c. returned k' rest c (some out)) count in
    let (w', r, left) =
      read_terminal boot 1023 w buf out rest (pos (suc (length line))) k' stdin reads' in
    let newline : (length line + 1 == min 1023 (length line + 1)) ≡ true =
      ==_yes (length line + 1) (min 1023 (length line + 1)) (omega (arith, room)) in
    (
      w',
      out,
      r,
      left,
      at (length line) ∙ rw newline refl,
      λ j lt.
          let inner : (j + 1 == min 1023 (length line + 1)) ≡ false =
            ==_no (j + 1) (min 1023 (length line + 1)) (omega (arith, room, lt)) in
          let within : ltb j (min 1023 (length line + 1)) ≡ true =
            lt→ltb j (min 1023 (length line + 1)) (omega (arith, room, lt)) in
          at j ∙ rw (inner, within) refl,
    )

-- A command that is typed at the idle terminal of the shell, with any corrections by the backspace
-- key, is executed, once and exactly as it was typed, after which the shell reports the result and
-- goes on; the scan codes behind Enter are left for later. The shell's descriptors 0 and 1 are the
-- terminal's, its terminal is shown and scheduled, the command has between 1 and 127
-- characters, none of them NUL, and is not `exit`, from which it differs at the index `d`.
pub shell_loop-executes :
    (boot : Option Bytes) (execute : Bytes → World → ℤ × World) (rounds : ℕ) (buf : Bytes)
    (w : World) (keys : ℕ → ℕ) (enter d : ℕ) (inputs rest : List ℕ)
    → (descriptor (w.kernel.pcbs w.kernel.active_pid) 0).file_ops ≡ some terminal_file_ops_stdin
    → (descriptor (w.kernel.pcbs w.kernel.active_pid) 1).file_ops ≡ some terminal_file_ops_stdout
    → IsIdle w.kernel
    → ((other : ℕ) → key_of other w.kernel ≡ keys other)
    → IsPlain enter
    → keys enter ≡ b'\n'
    → AllTyped keys (w.kernel.terminals w.kernel.current_terminal).overflow [] inputs
    → w.inputs ≡ inputs ++ (enter ∷ rest)
    → 0 < length (edited keys [] inputs)
    → length (edited keys [] inputs) < 128
    → ((j : ℕ) → j < length (edited keys [] inputs) → get_or (edited keys [] inputs) j 0 ≢ 0)
    → d ≤ length (edited keys [] inputs)
    → get_or (edited keys [] inputs) d 0 ≢ bytes_of (codes "exit") d
    → let line = edited keys [] inputs in
      (w1 : World) × (text : Bytes) × (let (rval, w2) = execute text w1 in
        shell_loop boot execute (suc rounds) buf w
        ≡ shell_loop boot execute rounds text (report boot rval w2))
      × (w1.inputs ≡ rest)
      × IsLength text (length line)
      × ((j : ℕ) → j < length line → text j ≡ get_or line j 0)
shell_loop-executes boot execute rounds buf w keys enter d inputs rest stdin stdout idle same plain
      is_enter typed given some_char room full le ne =
    let line = edited keys [] inputs in
    let prompt = codes "391OS> " in
    let w0 = said prompt w in
    let (w1, out, r, left, nl, chars) =
      line_read boot keys enter inputs rest buf w0 (said-stdin prompt w ∙ stdin)
        (said-IsIdle prompt w idle) (λ other. said-keys prompt w other ∙ same other) plain is_enter
        (subst (λ o. AllTyped keys o [] inputs) (sym (said-overflow prompt w)) typed) room given in
    let cnt = pos (suc (length line)) in
    let shape = command-line (length line) out nl in
    let letters : (j : ℕ) → j < length line → command cnt out j ≡ get_or line j 0 = λ j lt.
      ap (λ (f : Bytes). f j) shape ∙ rw (==_no (length line) j (omega (arith, lt))) (chars j lt) in
    let ends : command cnt out (length line) ≡ 0 =
      ap (λ (f : Bytes). f (length line)) shape ∙ rw (==_self (length line)) refl in
    let is_length : IsLength (command cnt out) (length line) = record {
      ends = ends;
      before = λ j lt z. full j lt (sym (letters j lt) ∙ z);
    } in
    let place : (j : ℕ) → j ≤ length line → command cnt out j ≡ get_or line j 0 = λ j small.
      elim (ℕ_discrete (length line) j) [
        | yes q ↦ subst (λ i. command cnt out i ≡ get_or line i 0) q (ends ∙ sym (past_end line))
        | no q ↦ letters j (omega (arith, small, q))
      ] in
    let first : (command cnt out 0 == 0) ≡ false =
      ==_no (command cnt out 0) 0 (is_length.before 0 some_char) in
    (
      w1,
      command cnt out,
      round_lem boot execute rounds buf out w w0 w1 cnt
          (ece391_fdputs-said boot prompt w stdout refl (omega arith) (omega arith)) r refl
          (ece391_strcmp-differ (command cnt out) (bytes_of (codes "exit")) (length line) d
            is_length (omega (arith, room)) le (λ e. ne (sym (place d le) ∙ e)))
          first,
      left,
      is_length,
      letters,
    )
