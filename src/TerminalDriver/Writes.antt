-- ===== src/TerminalDriver/Writes.antt =====
-- `terminal_write` of terminal.c prints its buffer.
use light_os_a_linus_like_os.Common.{
  ℕ, zero, suc, ◌^◌, ◌<◌, ◌≡◌, refl, pos, some, ==_no, lt→ltb, arith,
}
use light_os_a_linus_like_os.Memory.{Bytes}
use light_os_a_linus_like_os.Kernel.{Kernel}
use light_os_a_linus_like_os.Console.{putc, put_all}
use light_os_a_linus_like_os.Printf.Texts.{slice}
use light_os_a_linus_like_os.TerminalDriver.{write_from, terminal_write}

write_from-put_all :
    (n i : ℕ) (buf : Bytes) (k : Kernel) → write_from n i buf k ≡ put_all (slice buf i n) k
unfolding write_from put_all
write_from-put_all zero i buf k = refl
write_from-put_all (suc n) i buf k = write_from-put_all n (suc i) buf (putc (buf i) k)

-- A write of some bytes prints them, and returns their number.
pub terminal_write-put_all :
    (n : ℕ) (buf : Bytes) (k : Kernel)
    → 0 < n
    → n < 2 ^ 31
    → terminal_write (some buf) n k ≡ (pos n, put_all (slice buf 0 n) k)
unfolding terminal_write
terminal_write-put_all n buf k positive small =
    rw (==_no n 0 (omega arith), lt→ltb n (2 ^ 31) small, write_from-put_all n 0 buf k) refl
