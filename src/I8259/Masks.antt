-- ===== src/I8259/Masks.antt =====
-- Which bits of which mask register the functions of i8259.c change.
use Prim.Native.Nat.{bit_and, bit_or}
use light_os_a_linus_like_os.Common.{
  ℕ, zero, suc, ◌+◌, ◌-◌, ◌/◌, ◌%◌, ◌^◌, ◌≤◌, ◌<◌, ◌≡◌, refl, inl, inr, Bool-cases, ◌∷◌, Bool, true,
  false, ltb, leb, ltb, ◌==◌, ==_iff, if◌then◌else◌, arith,
}
use light_os_a_linus_like_os.Kernel.{Kernel}
use light_os_a_linus_like_os.I8259.{enable_irq, disable_irq, send_eoi}

-- Does the test hold of each of the first `count` numbers?
every : (ℕ → Bool) → ℕ → Bool
every test zero = true
every test (suc count) = if every test count then test count else false

every-at :
    (test : ℕ → Bool) (count : ℕ) {i : ℕ} → i < count → every test count ≡ true → test i ≡ true
unfolding every
every-at test zero lt e = absurd (omega arith)
every-at test (suc count) {i = i} lt e = ground (arith, every-at test count {i = i})

abbrev pub bit : ℕ → ℕ → ℕ
bit i v = v / 2 ^ i % 2

-- One line's bit, checked for all masks, lines and bits.
clear_test : ℕ → ℕ → ℕ → Bool
clear_test i j v = bit j (bit_and v (255 - 2 ^ i) % 256) == (if j == i then 0 else bit j v)

set_test : ℕ → ℕ → ℕ → Bool
set_test i j v = bit j (bit_or v (2 ^ i) % 256) == (if j == i then 1 else bit j v)

cleared_table : every (λ i. every (λ j. every (clear_test i j) 256) 8) 8 ≡ true
unfolding every clear_test
cleared_table = refl

set_table : every (λ i. every (λ j. every (set_test i j) 256) 8) 8 ≡ true
unfolding every set_test
set_table = refl

clear_bit :
    (i j v : ℕ)
    → i < 8
    → j < 8
    → v < 256
    → bit j (bit_and v (255 - 2 ^ i) % 256) ≡ (if j == i then 0 else bit j v)
unfolding clear_test
clear_bit i j v hi hj hv = (==_iff _ _).0 (
    every-at (clear_test i j) 256 hv (
      every-at (λ j. every (clear_test i j) 256) 8 hj
        (every-at (λ i. every (λ j. every (clear_test i j) 256) 8) 8 hi cleared_table)))

set_bit :
    (i j v : ℕ)
    → i < 8
    → j < 8
    → v < 256
    → bit j (bit_or v (2 ^ i) % 256) ≡ (if j == i then 1 else bit j v)
unfolding set_test
set_bit i j v hi hj hv = (==_iff _ _).0 (
    every-at (set_test i j) 256 hv (
      every-at (λ j. every (set_test i j) 256) 8 hj
        (every-at (λ i. every (λ j. every (set_test i j) 256) 8) 8 hi set_table)))

-- The register that holds the mask of a line.
abbrev pub mask_port : ℕ → ℕ
mask_port irq_num = if ltb irq_num 8 then 0x21 else 0xA1

eoi_table : every (λ i. bit_or 0x60 i % 256 == 0x60 + i) 8 ≡ true
unfolding every
eoi_table = refl

eoi_byte : (i : ℕ) → i < 8 → bit_or 0x60 i % 256 ≡ 0x60 + i
eoi_byte i h = (==_iff _ _).0 (every-at (λ i. bit_or 0x60 i % 256 == 0x60 + i) 8 h eoi_table)

-- `enable_irq` and `disable_irq` each send one byte, to the register that holds the line's mask:
-- the mask that stood there with this line's bit cleared, or set, and the other seven bits kept.
pub irq_masks :
    (inb : ℕ → ℕ) (irq_num : ℕ) (k : Kernel)
    → irq_num < 16
    → inb (mask_port irq_num) < 256
    → (on off : ℕ) × (enable_irq inb irq_num k
        ≡ record k { outputs = (on, mask_port irq_num) ∷ k.outputs })
      × (disable_irq inb irq_num k ≡ record k { outputs = (off, mask_port irq_num) ∷ k.outputs })
      × ((j : ℕ)
          → j < 8
          → (bit j on ≡ (if j == irq_num % 8 then 0 else bit j (inb (mask_port irq_num))))
            × (bit j off ≡ (if j == irq_num % 8 then 1 else bit j (inb (mask_port irq_num)))))
unfolding enable_irq disable_irq
irq_masks inb irq_num k h byte =
    let old = inb (mask_port irq_num) in
    (
      bit_and old (255 - 2 ^ (irq_num % 8)) % 256,
      bit_or old (2 ^ (irq_num % 8)) % 256,
      elim (Bool-cases (ltb irq_num 8)) [
        | inl e ↦ rw (in_range, e, low e)
        | inr e ↦ rw (in_range, e, high e)
      ],
      elim (Bool-cases (ltb irq_num 8)) [
        | inl e ↦ rw (in_range, e, low e)
        | inr e ↦ rw (in_range, e, high e)
      ],
      λ j hj. (
        clear_bit (irq_num % 8) j old (omega arith) hj byte,
        set_bit (irq_num % 8) j old (omega arith) hj byte,
      ),
    )
  where
    in_range : ltb 15 irq_num ≡ false
    in_range = ground arith

    low : ltb irq_num 8 ≡ true → irq_num % 8 ≡ irq_num
    low e = ground arith

    high : ltb irq_num 8 ≡ false → irq_num % 8 ≡ irq_num - 8
    high e = ground arith

-- `send_eoi` of a line of the slave acknowledges it there, and then the master's line 2 to which
-- the slave is wired; of a line of the master, there alone; of no line of either, nothing is sent.
pub send_eoi_lem :
    (irq_num : ℕ) (k : Kernel)
    → (irq_num < 8 → send_eoi irq_num k ≡ record k { outputs = (0x60 + irq_num, 0x20) ∷ k.outputs })
      × (8 ≤ irq_num
          → irq_num < 16
          → send_eoi irq_num k
            ≡ record k { outputs = (0x62, 0x20) ∷ (0x60 + (irq_num - 8), 0xA0) ∷ k.outputs })
      × (16 ≤ irq_num → send_eoi irq_num k ≡ k)
unfolding send_eoi
send_eoi_lem irq_num k = (
  λ h.
      let e : ltb 15 irq_num ≡ false = ground arith in
      let f : leb 8 irq_num ≡ false = ground arith in rw (e, f, eoi_byte irq_num h),
  λ l h.
      let e : ltb 15 irq_num ≡ false = ground arith in
      let f : leb 8 irq_num ≡ true = ground arith in
      rw (e, f, eoi_byte (irq_num - 8) (omega arith)),
  λ h. let e : ltb 15 irq_num ≡ true = ground arith in rw e,
)
