-- ===== src/TerminalDriver.antt =====
-- student-distrib/terminal.c: the drivers behind the descriptors 0 and 1.
pub mod Lines
pub mod Typing
pub mod Writes
use light_os_a_linus_like_os.Common.{
  ℕ, zero, suc, ◌+◌, ◌-◌, ℤ, pos, failure, to_int32, Option, none, some, List, [], ◌∷◌, get_or, min,
  ltb, ◌==◌, if◌then◌else◌,
}
use light_os_a_linus_like_os.Memory.{Bytes, update}
use light_os_a_linus_like_os.Kernel.{Terminal, Kernel, set_terminal}
use light_os_a_linus_like_os.Console.{putc}
use light_os_a_linus_like_os.Keyboard.Handler.{keyboard_handler}

abbrev reset : Kernel → Kernel
reset k =
    let t = k.terminals k.active_terminal in
    set_terminal k.active_terminal
      (record t { keyboard_buffer_size = 0; keyboard_buffer_enable = 0 }) k

pub terminal_open : Kernel → ℤ × Kernel
terminal_open k = (pos 0, reset k)

pub terminal_close : Kernel → ℤ × Kernel
terminal_close k = (pos 0, reset k)

-- How a wait for the keyboard ends: the line is there, and scan codes are left; the scan codes
-- run out, and the reader waits for ever; or the handler wrote out of bounds.
pub data Wait : Type 0 where
  ready : Kernel → List ℕ → Wait
  waiting : Kernel → Wait
  fault : Wait

abbrev and_wait : Option Kernel → (Kernel → Wait) → Wait
and_wait none f = fault
and_wait (some k) f = f k

-- `while (active_terminal->keyboard_buffer_enable == 1) {}`, which ends by an interrupt: the
-- keyboard's, with the scan codes of the list one after the other.
pub wait_line : List ℕ → Kernel → Wait
wait_line [] k =
    if (k.terminals k.active_terminal).keyboard_buffer_enable == 1 then waiting k else ready k []
wait_line (input ∷ inputs) k =
    if (k.terminals k.active_terminal).keyboard_buffer_enable == 1
    then and_wait (keyboard_handler input k) (wait_line inputs)
    else ready k (input ∷ inputs)

-- The copying loop of `terminal_read`, with `rounds` bytes left from `index` on: the result, and
-- the caller's buffer. It ends behind the first newline, or puts one at the end. At `n = 0` the
-- byte before the buffer would be written, which is a fault.
copy_line : ℕ → ℕ → ℕ → List ℕ → Bytes → Option (ℤ × Bytes)
copy_line zero index n keys buf =
    if n == 0 then none else some (to_int32 n, update buf (n - 1) b'\n')
copy_line (suc rounds) index n keys buf =
    let c = get_or keys index 0 in
    let rest = copy_line rounds (suc index) n keys (update buf index c) in
    if c == b'\n' then some (to_int32 (index + 1), update buf index c) else rest

-- The result of a read: the kernel, the scan codes not yet handled, the number and the buffer.
pub data Read : Type 0 where
  returned : Kernel → List ℕ → ℤ → Option Bytes → Read
  blocked : Kernel → Read
  failed : Read

finish_copy : Kernel → List ℕ → Option (ℤ × Bytes) → Read
finish_copy k inputs none = failed
finish_copy k inputs (some (count, buf)) =
    let t = k.terminals k.active_terminal in
    returned (set_terminal k.active_terminal (record t { keyboard_buffer_size = 0 }) k) inputs count
      (some buf)

finish_read : Bytes → ℕ → Wait → Read
unfolding copy_line finish_copy
finish_read buf n (ready k inputs) =
    let t = k.terminals k.active_terminal in
    let count = if ltb t.keyboard_buffer_size n then t.keyboard_buffer_size else n in
    finish_copy k inputs (copy_line count 0 count t.key_buf buf)
finish_read buf n (waiting k) = blocked k
finish_read buf n fault = failed

pub terminal_read : Option Bytes → ℕ → List ℕ → Kernel → Read
unfolding finish_read wait_line
terminal_read none n inputs k = returned k inputs failure none
terminal_read (some buf) n inputs k =
    let t = k.terminals k.active_terminal in
    let waiting_on = set_terminal k.active_terminal (record t { keyboard_buffer_enable = 1 }) k in
    if n == 0
    then returned k inputs (pos 0) (some buf)
    else finish_read buf n (wait_line inputs waiting_on)

-- The loop of `terminal_write`, over the bytes of the buffer.
write_from : ℕ → ℕ → Bytes → Kernel → Kernel
write_from zero index buf k = k
write_from (suc rounds) index buf k = write_from rounds (suc index) buf (putc (buf index) k)

unfoldable pub terminal_write : Option Bytes → ℕ → Kernel → ℤ × Kernel
unfolding write_from
terminal_write none n k = (failure, k)
terminal_write (some buf) n k = if n == 0 then (pos 0, k) else (to_int32 n, write_from n 0 buf k)
