-- ===== src/Rtc/Ticks.antt =====
-- How long `rtc_read` of student-distrib/rtc.c waits.
use light_os_a_linus_like_os.Common.{
  ℕ, zero, suc, ◌/◌, ◌-◌, ◌≤◌, ◌<◌, ◌≡◌, ◌≢◌, refl, ==_no, ==_yes, none, some, arith,
}
use light_os_a_linus_like_os.Kernel.{same_self, Kernel}
use light_os_a_linus_like_os.I8259.{send_eoi}
use light_os_a_linus_like_os.Rtc.{rtc_handler, rtc_read, wait_ticks, restart}

-- The kernel after some interrupts of the clock.
abbrev pub ticks_after : ℕ → Kernel → Kernel
ticks_after zero k = k
ticks_after (suc n) k = ticks_after n (rtc_handler k)

-- The clock of the terminal that has the processor.
abbrev pub clock : Kernel → ℕ
clock k = (k.terminals k.active_terminal).virtual_count

clock-rtc_handler : (k : Kernel) → clock (rtc_handler k) ≡ clock k - 1
unfolding rtc_handler send_eoi
clock-rtc_handler k = refl

abbrev period : Kernel → ℕ
period k = k.physical_rate / (k.terminals k.active_terminal).virtual_rate

clock-restart : (k : Kernel) → clock (restart k) ≡ period k
clock-restart k = rw (same_self k.active_terminal, clock) refl

wait_ticks-some :
    (ticks : ℕ) (k : Kernel) (n : ℕ)
    → clock k ≡ n
    → n ≤ ticks
    → wait_ticks ticks k ≡ some (ticks_after n k)
unfolding wait_ticks
wait_ticks-some zero k zero e h = ground arith
wait_ticks-some zero k (suc n) e h = elim h [ ]
wait_ticks-some (suc ticks) k zero e h = ground arith
wait_ticks-some (suc ticks) k (suc n) e h =
    ground (arith, clock-rtc_handler k, wait_ticks-some ticks (rtc_handler k) n)

wait_ticks-none : (ticks : ℕ) (k : Kernel) → ticks < clock k → wait_ticks ticks k ≡ none
unfolding wait_ticks
wait_ticks-none zero k h = ground arith
wait_ticks-none (suc ticks) k h =
    ground (arith, clock-rtc_handler k, wait_ticks-none ticks (rtc_handler k))

-- `rtc_read` returns after exactly as many interrupts of the clock as the physical rate holds of
-- the terminal's rate: with fewer it still waits, with that many or more to come it returns after
-- them. At a rate of 0 it does not return: the division faults.
pub rtc_read_lem :
    (ticks : ℕ) (k : Kernel)
    → let rate = (k.terminals k.active_terminal).virtual_rate in
      let period = k.physical_rate / rate in
      (rate ≢ 0 → period ≤ ticks → rtc_read ticks k ≡ some (ticks_after period (restart k)))
      × (rate ≢ 0 → ticks < period → rtc_read ticks k ≡ none)
      × (rate ≡ 0 → rtc_read ticks k ≡ none)
unfolding rtc_read
rtc_read_lem ticks k = (
  λ ne h.
      rw (==_no (k.terminals k.active_terminal).virtual_rate 0 ne)
        (wait_ticks-some ticks (restart k) (period k) (clock-restart k) h),
  λ ne h.
      rw (==_no (k.terminals k.active_terminal).virtual_rate 0 ne)
        (wait_ticks-none ticks (restart k) (rw (clock-restart k) h)),
  λ z. rw (==_yes (k.terminals k.active_terminal).virtual_rate 0 z) refl,
)
