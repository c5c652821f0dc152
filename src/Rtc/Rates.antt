-- ===== src/Rtc/Rates.antt =====
-- Which rates the clock of student-distrib/rtc.c accepts, and what it sets for one.
use light_os_a_linus_like_os.Common.{
  ℕ, zero, ◌-◌, suc, ◌+◌, ◌*◌, ◌/◌, ◌^◌, if◌then◌else◌, ◌≤◌, ◌≡◌, refl, ◌≢◌, ◌⊎◌, ℤ, pos, negsuc,
  failure, to_int32, none, some, true, Bool-cases, inl, inr, arith,
}
use mathlib.Core.Bool.{false≢true}
use native.Mathlib.Numerals.{unary_clauses}
use light_os_a_linus_like_os.Memory.{Bytes, load32}
use light_os_a_linus_like_os.Kernel.{Kernel, same}
use light_os_a_linus_like_os.Rtc.{rtc_write, meets, set_rate, write_rate, rate_code}

-- The powers of two from 2 to 1024.
abbrev pub IsRate : ℕ → Type 0
IsRate rate = (n : ℕ) × (1 ≤ n) × (n ≤ 10) × (rate ≡ 2 ^ n)

meets-or :
    (fuel i rate : ℕ)
    → meets (suc fuel) i rate ≡ true
    → (rate ≡ i) ⊎ (meets fuel (i * 2) rate ≡ true)
unfolding meets
meets-or fuel i rate h = ground arith

double : (n : ℕ) → 2 ^ n * 2 ≡ 2 ^ suc n
double n = simp unary_clauses refl

last : (n rate : ℕ) → n ≡ 11 → meets 1 (2 ^ n) rate ≢ true
unfolding meets
last n rate b = rw b (λ e. false≢true e)

-- The eleventh round is the one that the loop's condition refuses.
meets-IsRate :
    (fuel n rate : ℕ) → 1 ≤ n → fuel + n ≡ 11 → meets (suc fuel) (2 ^ n) rate ≡ true → IsRate rate
unfolding meets
meets-IsRate zero n rate l b h = ground (arith, last n rate (omega arith) h)
meets-IsRate (suc fuel) n rate l b h = elim (meets-or (suc fuel) (2 ^ n) rate h) [
  | inl e ↦ (n, l, omega arith, e)
  | inr e ↦ meets-IsRate fuel (suc n) rate (omega arith) (omega arith) (rw (← double n) e)
]

above : (n : ℕ) → ¬ (suc (suc (suc (suc (suc (suc (suc (suc (suc (suc (suc n)))))))))) ≤ 10)
above n h = omega arith

write_rate-accepts :
    (n : ℕ) (k : Kernel) → 1 ≤ n → n ≤ 10 → write_rate (pos (2 ^ n)) k ≡ (pos 0, set_rate (2 ^ n) k)
unfolding write_rate meets
write_rate-accepts zero k h l = elim h [ ]
write_rate-accepts (suc zero) k h l = refl
write_rate-accepts (suc (suc zero)) k h l = refl
write_rate-accepts (suc (suc (suc zero))) k h l = refl
write_rate-accepts (suc (suc (suc (suc zero)))) k h l = refl
write_rate-accepts (suc (suc (suc (suc (suc zero))))) k h l = refl
write_rate-accepts (suc (suc (suc (suc (suc (suc zero)))))) k h l = refl
write_rate-accepts (suc (suc (suc (suc (suc (suc (suc zero))))))) k h l = refl
write_rate-accepts (suc (suc (suc (suc (suc (suc (suc (suc zero)))))))) k h l = refl
write_rate-accepts (suc (suc (suc (suc (suc (suc (suc (suc (suc zero))))))))) k h l = refl
write_rate-accepts (suc (suc (suc (suc (suc (suc (suc (suc (suc (suc zero)))))))))) k h l = refl
write_rate-accepts (suc (suc (suc (suc (suc (suc (suc (suc (suc (suc (suc n))))))))))) k h l =
    absurd (above n l)

rate_code-power : (n : ℕ) → 1 ≤ n → n ≤ 10 → rate_code (2 ^ n) ≡ some (16 - n)
unfolding rate_code
rate_code-power zero h l = elim h [ ]
rate_code-power (suc zero) h l = refl
rate_code-power (suc (suc zero)) h l = refl
rate_code-power (suc (suc (suc zero))) h l = refl
rate_code-power (suc (suc (suc (suc zero)))) h l = refl
rate_code-power (suc (suc (suc (suc (suc zero))))) h l = refl
rate_code-power (suc (suc (suc (suc (suc (suc zero)))))) h l = refl
rate_code-power (suc (suc (suc (suc (suc (suc (suc zero))))))) h l = refl
rate_code-power (suc (suc (suc (suc (suc (suc (suc (suc zero)))))))) h l = refl
rate_code-power (suc (suc (suc (suc (suc (suc (suc (suc (suc zero))))))))) h l = refl
rate_code-power (suc (suc (suc (suc (suc (suc (suc (suc (suc (suc zero)))))))))) h l = refl
rate_code-power (suc (suc (suc (suc (suc (suc (suc (suc (suc (suc (suc n))))))))))) h l =
    absurd (above n l)

write_rate-refuses :
    (rate : ℕ) (k : Kernel) → ¬ IsRate rate → write_rate (pos rate) k ≡ (failure, k)
unfolding write_rate
write_rate-refuses rate k h = elim (Bool-cases (meets 11 2 rate)) [
  | inl e ↦ absurd (h (meets-IsRate 10 1 rate (omega arith) refl e))
  | inr e ↦ ground arith
]

refused :
    (z : ℤ) (k : Kernel) → ((rate : ℕ) → IsRate rate → z ≢ pos rate) → write_rate z k ≡ (failure, k)
unfolding write_rate
refused (negsuc n) k h = refl
refused (pos rate) k h = write_rate-refuses rate k (λ r. h rate r refl)

-- `rtc_write` gives the terminal the rate in the buffer exactly when that is a power of two from
-- 2 to 1024: it then returns 0, the scheduled terminal's `virtual_rate` is that rate and its
-- `virtual_count` the physical rate divided by it, and all else is kept. It fails and changes
-- nothing for any other number and for a NULL buffer.
pub rtc_write_lem :
    (k : Kernel)
    → ((buf : Bytes) (rate : ℕ)
        → to_int32 (load32 buf 0) ≡ pos rate
        → IsRate rate
        → let t = k.terminals k.active_terminal in
          rtc_write (some buf) k ≡ (
            pos 0,
            record k {
              terminals = λ i.
                  if same k.active_terminal i
                  then record t { virtual_rate = rate; virtual_count = k.physical_rate / rate }
                  else k.terminals i;
            },
          ))
      × ((buf : Bytes)
          → ((rate : ℕ) → IsRate rate → to_int32 (load32 buf 0) ≢ pos rate)
          → rtc_write (some buf) k ≡ (failure, k))
      × (rtc_write none k ≡ (failure, k))
unfolding rtc_write write_rate
rtc_write_lem k = (
  λ buf rate e (n, l, m, p). rw (e, p) (write_rate-accepts n k l m),
  λ buf h. refused (to_int32 (load32 buf 0)) k h,
  refl,
)
