-- ===== src/Console/Interrupts.antt =====
-- lib.c's `test_interrupts`, which shows that the clock ticks: it counts up every character.
use light_os_a_linus_like_os.Common.{
  ℕ, zero, suc, ◌+◌, ◌-◌, ◌*◌, ◌%◌, ◌≡◌, ◌&&◌, ltb, leb, ◌==◌, if◌then◌else◌, arith,
}
use light_os_a_linus_like_os.Memory.{Bytes, update}
use light_os_a_linus_like_os.Kernel.{Kernel, physical}
use light_os_a_linus_like_os.Console.{video_mem, num_cols, num_rows}

-- The loop, with `rounds` cells left from `index` on.
unfoldable count_from : ℕ → ℕ → ℕ → Bytes → Bytes
count_from base zero index m = m
count_from base (suc rounds) index m =
    let cell = base + index * 2 in
    count_from base rounds (suc index) (update m cell ((m cell + 1) % 256))

unfoldable test_interrupts : Kernel → Kernel
unfolding count_from
test_interrupts k = record k {
  memory = count_from (physical k video_mem) (num_rows * num_cols) 0 k.memory;
}

-- Each cell's character is counted up once; attributes and everything else stay.
count_from_lem :
    (base rounds index : ℕ) (m : Bytes) (a : ℕ)
    → count_from base rounds index m a ≡ (
        if leb (base + index * 2) a && ltb a (base + (index + rounds) * 2) && (a - base) % 2 == 0
        then (m a + 1) % 256
        else m a)
unfolding count_from
count_from_lem base zero index m a = ground arith
count_from_lem base (suc rounds) index m a =
    let cell = base + index * 2 in
    ground (arith, count_from_lem base rounds (suc index) (update m cell ((m cell + 1) % 256)) a)

count_all :
    (base : ℕ) (m : Bytes) (a : ℕ)
    → count_from base 2000 0 m a
      ≡ (if leb base a && ltb a (base + 4000) && (a - base) % 2 == 0 then (m a + 1) % 256 else m a)
count_all base m a =
    let first : base + 0 * 2 ≡ base = omega arith in
    let last : base + (0 + 2000) * 2 ≡ base + 4000 = omega arith in
    let all = count_from_lem base 2000 0 m a in rw (first, last) at all

-- `test_interrupts` counts the 2000 characters of the scheduled terminal's screen up by one,
-- modulo 256, and keeps the attributes and every other byte.
test_interrupts_lem :
    (k : Kernel) (a : ℕ)
    → let base = physical k video_mem in
      (test_interrupts k).memory a ≡ (
        if leb base a && ltb a (base + 4000) && (a - base) % 2 == 0
        then (k.memory a + 1) % 256
        else k.memory a)
unfolding test_interrupts
test_interrupts_lem k a = count_all (physical k video_mem) k.memory a
