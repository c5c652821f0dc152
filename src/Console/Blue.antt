-- ===== src/Console/Blue.antt =====
-- What lib.c's `blue_screen` changes.
use light_os_a_linus_like_os.Common.{
  ℕ, zero, suc, ◌+◌, ◌-◌, ◌*◌, ◌%◌, ◌≡◌, refl, leb, ltb, ◌==◌, ◌&&◌, if◌then◌else◌, arith,
}
use light_os_a_linus_like_os.Memory.{Bytes, update}
use light_os_a_linus_like_os.Kernel.{Kernel, physical}
use light_os_a_linus_like_os.Console.{paint_from, blue, blue_screen}

-- The loop over the cells sets their attribute bytes.
paint_from_lem :
    (base rounds index : ℕ) (m : Bytes) (a : ℕ)
    → paint_from base rounds index m a ≡ (
        if leb (base + index * 2) a && ltb a (base + (index + rounds) * 2) && (a - base) % 2 == 1
        then 0x16
        else m a)
unfolding paint_from
paint_from_lem base zero index m a = ground arith
paint_from_lem base (suc rounds) index m a =
    ground (arith, paint_from_lem base rounds (suc index) (update m (base + index * 2 + 1) blue) a)

-- The 2000 cells of the scheduled terminal's screen have the attribute 0x16, whose background is
-- blue; the characters, the rest of memory and everything else of the kernel are as they were.
pub record IsBlue (k k' : Kernel) : Type 0 where
  pub kept : k' ≡ record k { memory = k'.memory }
  pub painted :
      (a : ℕ)
      → k'.memory a ≡ (
          if leb (physical k 0xB8000) a
            && ltb a (physical k 0xB8000 + 4000)
            && (a - physical k 0xB8000) % 2 == 1
          then 0x16
          else k.memory a)

paint_all :
    (base : ℕ) (m : Bytes) (a : ℕ)
    → paint_from base 2000 0 m a
      ≡ (if leb base a && ltb a (base + 4000) && (a - base) % 2 == 1 then 0x16 else m a)
paint_all base m a =
    let first : base + 0 * 2 ≡ base = omega arith in
    let last : base + (0 + 2000) * 2 ≡ base + 4000 = omega arith in
    let all = paint_from_lem base 2000 0 m a in rw (first, last) at all

pub blue_screen-IsBlue : (k : Kernel) → IsBlue k (blue_screen k)
unfolding blue_screen
blue_screen-IsBlue k = record {
  kept = refl;
  painted = λ a. paint_all (physical k 0xB8000) k.memory a;
}
