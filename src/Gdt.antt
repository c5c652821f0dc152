-- ===== src/Gdt.antt =====
-- The segment descriptors of student-distrib/x86_desc.h, and the two that kernel.c's `entry` builds:
-- those of the local descriptor table and of the task state segment.
use light_os_a_linus_like_os.Common.{ℕ, ◌+◌, ◌*◌, ◌/◌, ◌%◌, ◌^◌, ◌<◌, ◌≡◌, refl, u32, arith}

-- The bit fields of `seg_desc_t`.
pub record SegDesc : Type 0 where
  pub seg_lim_15_00 : ℕ
  pub base_15_00 : ℕ
  pub base_23_16 : ℕ
  pub type_field : ℕ
  pub sys : ℕ
  pub dpl : ℕ
  pub present : ℕ
  pub seg_lim_19_16 : ℕ
  pub avail : ℕ
  pub reserved : ℕ
  pub opsize : ℕ
  pub granularity : ℕ
  pub base_31_24 : ℕ

abbrev pub kernel_ds : ℕ
kernel_ds = 0x18

abbrev pub kernel_tss : ℕ
kernel_tss = 0x30

abbrev pub kernel_ldt : ℕ
kernel_ldt = 0x38

abbrev pub tss_size : ℕ
tss_size = 104

-- `SET_LDT_PARAMS`
abbrev pub set_ldt_params : ℕ → ℕ → SegDesc → SegDesc
set_ldt_params addr lim str = record str {
  base_31_24 = addr / 2 ^ 24 % 2 ^ 8;
  base_23_16 = addr / 2 ^ 16 % 2 ^ 8;
  base_15_00 = addr % 2 ^ 16;
  seg_lim_19_16 = lim / 2 ^ 16 % 2 ^ 4;
  seg_lim_15_00 = lim % 2 ^ 16;
}

-- `SET_TSS_PARAMS`, which has the same body.
abbrev pub set_tss_params : ℕ → ℕ → SegDesc → SegDesc
set_tss_params addr lim str = record str {
  base_31_24 = addr / 2 ^ 24 % 2 ^ 8;
  base_23_16 = addr / 2 ^ 16 % 2 ^ 8;
  base_15_00 = addr % 2 ^ 16;
  seg_lim_19_16 = lim / 2 ^ 16 % 2 ^ 4;
  seg_lim_15_00 = lim % 2 ^ 16;
}

-- The two local variables of `entry`, over what the stack held. Addresses and sizes are the
-- linker's.
unfoldable pub the_ldt_desc : ℕ → ℕ → SegDesc → SegDesc
the_ldt_desc ldt ldt_size stack = set_ldt_params ldt ldt_size (record stack {
  granularity = 0x0;
  opsize = 0x1;
  reserved = 0x0;
  avail = 0x0;
  present = 0x1;
  dpl = 0x0;
  sys = 0x0;
  type_field = 0x2;
})

-- `TSS_SIZE & 0x000F0000` is put into a field of four bits.
unfoldable pub the_tss_desc : ℕ → ℕ → SegDesc → SegDesc
the_tss_desc tss size stack = set_tss_params tss size (record stack {
  granularity = 0x0;
  opsize = 0x0;
  reserved = 0x0;
  avail = 0x0;
  seg_lim_19_16 = tss_size / 2 ^ 16 % 2 ^ 4 * 2 ^ 16 % 2 ^ 4;
  present = 0x1;
  dpl = 0x0;
  sys = 0x0;
  type_field = 0x9;
  seg_lim_15_00 = tss_size % 2 ^ 16;
})

-- What the processor takes from a descriptor: the base and the limit, in bytes.
abbrev pub base : SegDesc → ℕ
base d = d.base_31_24 * 2 ^ 24 + d.base_23_16 * 2 ^ 16 + d.base_15_00

abbrev pub limit : SegDesc → ℕ
limit d = d.seg_lim_19_16 * 2 ^ 16 + d.seg_lim_15_00

-- The descriptors that `entry` builds are those of a present system segment of the kernel, a local
-- descriptor table and an available 32-bit task state segment, with the address and the size that
-- the linker gives: addresses of 32 bits and sizes below 1 MB.
pub descriptors_lem :
    (ldt ldt_size tss size : ℕ) (stack : SegDesc)
    → ldt < u32
    → ldt_size < 2 ^ 20
    → tss < u32
    → size < 2 ^ 20
    → let l = the_ldt_desc ldt ldt_size stack in
      let t = the_tss_desc tss size stack in
      (base l ≡ ldt)
      × (limit l ≡ ldt_size)
      × (base t ≡ tss)
      × (limit t ≡ size)
      × (l.present * 128 + l.dpl * 32 + l.sys * 16 + l.type_field ≡ 0x82)
      × (t.present * 128 + t.dpl * 32 + t.sys * 16 + t.type_field ≡ 0x89)
      × (l.granularity ≡ 0)
      × (t.granularity ≡ 0)
unfolding the_ldt_desc the_tss_desc
descriptors_lem ldt ldt_size tss size stack a b c d =
    (omega arith, omega arith, omega arith, omega arith, refl, refl, refl, refl)
