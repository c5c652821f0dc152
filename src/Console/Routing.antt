-- ===== src/Console/Routing.antt =====
-- A program writes to its own terminal only, on the screen if that is shown.
use light_os_a_linus_like_os.Common.{ℕ, ◌+◌, ◌<◌, ◌≡◌, true, false, if◌then◌else◌, arith}
use light_os_a_linus_like_os.Kernel.{TerminalId, same, Kernel, physical}
use light_os_a_linus_like_os.Console.{video_mem, putc}
use light_os_a_linus_like_os.Console.Emit.{IsOnScreen, Outside, emit-Outside}
use light_os_a_linus_like_os.Paging.Maps.{IsRouted, backing}

-- Where the scheduled terminal's characters are to go.
abbrev pub destination : Kernel → ℕ
destination k =
    if same k.active_terminal k.current_terminal then 0xB8000 else backing k.active_terminal

physical-video_mem : (k : Kernel) → IsRouted k → physical k video_mem ≡ destination k
physical-video_mem k r = ground arith

putc-Outside :
    (c : ℕ) (k : Kernel) (a : ℕ)
    → IsRouted k
    → IsOnScreen (k.terminals k.active_terminal)
    → Outside (destination k) a
    → (putc c k).memory a ≡ k.memory a
unfolding putc
putc-Outside c k a r on o =
    rw (physical-video_mem k r)
      (emit-Outside (destination k) c (k.terminals k.active_terminal) k.memory a on o)

-- A character that the scheduled terminal prints never lands in another terminal's backing page;
-- nor does it change the screen while another terminal is shown, or the terminal's own backing
-- page while the terminal is shown.
pub putc-isolated :
    (c : ℕ) (k : Kernel) (i : TerminalId) (o : ℕ)
    → IsRouted k
    → IsOnScreen (k.terminals k.active_terminal)
    → o < 4096
    → (same k.active_terminal i ≡ false
        → (putc c k).memory (backing i + o) ≡ k.memory (backing i + o))
      × (same k.active_terminal k.current_terminal ≡ false
          → (putc c k).memory (0xB8000 + o) ≡ k.memory (0xB8000 + o))
      × (same k.active_terminal k.current_terminal ≡ true
          → (putc c k).memory (backing i + o) ≡ k.memory (backing i + o))
putc-isolated c k i o r on h = (
  λ d. putc-Outside c k (backing i + o) r on (apart d),
  λ d. putc-Outside c k (0xB8000 + o) r on (below d),
  λ d. putc-Outside c k (backing i + o) r on (above d),
)
  where
    apart : same k.active_terminal i ≡ false → Outside (destination k) (backing i + o)
    apart d = ground arith

    below :
        same k.active_terminal k.current_terminal ≡ false → Outside (destination k) (0xB8000 + o)
    below d = ground arith

    above :
        same k.active_terminal k.current_terminal ≡ true → Outside (destination k) (backing i + o)
    above d = ground arith
