-- ===== src/Entry/Tables.antt =====
-- The tables and selectors of the processor that kernel.c's `entry` sets.
use mathlib.Core.Option
use light_os_a_linus_like_os.Common.{ℕ, ◌+◌, ◌*◌, ◌^◌, ◌<◌, ◌≡◌, refl, u32, ◌==◌, if◌then◌else◌}
use light_os_a_linus_like_os.Memory.{Bytes}
use light_os_a_linus_like_os.Kernel.{Kernel}
use light_os_a_linus_like_os.Idt.{IdtDesc, Routine}
use light_os_a_linus_like_os.Idt.Gates.{target, expected, IsKernelTrap, idt_init_lem}
use light_os_a_linus_like_os.Gdt.{SegDesc, base, limit, descriptors_lem}
use light_os_a_linus_like_os.Entry.{Image, Machine, machine}

-- The linker's addresses are 32-bit words, and the two segments are smaller than 1 MB.
pub record IsLinked (image : Image) : Type 0 where
  pub routines : (r : Routine) → image.address r < u32
  pub ldt_word : image.ldt < u32
  pub ldt_short : image.ldt_size < 2 ^ 20
  pub tss_word : image.tss < u32
  pub tss_short : image.tss_size < 2 ^ 20

-- Each gate of the interrupt descriptor table leads to the routine of its vector.
abbrev pub HasGates : Image → Machine → Type 0
HasGates image m =
    (v : ℕ)
    → v < 256
    → (target (m.idt v) ≡ Option.map image.address (expected v))
      × IsKernelTrap (if v == 0x80 then 3 else 0) (m.idt v)

-- The two descriptors are those of the local descriptor table and of the task state segment, and
-- the processor's registers and the fields of the task state segment select them and the kernel's
-- data segment.
abbrev pub HasSegments : Image → Machine → Type 0
HasSegments image m =
    let l = m.ldt_desc_ptr in
    let t = m.tss_desc_ptr in
    (base l ≡ image.ldt)
    × (limit l ≡ image.ldt_size)
    × (base t ≡ image.tss)
    × (limit t ≡ image.tss_size)
    × (l.present * 128 + l.dpl * 32 + l.sys * 16 + l.type_field ≡ 0x82)
    × (t.present * 128 + t.dpl * 32 + t.sys * 16 + t.type_field ≡ 0x89)
    × (m.tr ≡ 0x30)
    × (m.ldtr ≡ 0x38)
    × (m.ldt_segment_selector ≡ 0x38)
    × (m.ss0 ≡ 0x18)

pub machine-HasSegments :
    (inb : ℕ → ℕ) (conv_buf : ℕ → Bytes) (loader : Bytes) (image : Image) (mbi : ℕ) (stack : Bytes)
    (desc : SegDesc) (idt : ℕ → IdtDesc) (k : Kernel)
    → IsLinked image
    → HasSegments image (machine inb conv_buf loader image mbi stack desc idt k)
machine-HasSegments inb conv_buf loader image mbi stack desc idt k h =
    let (a, b, c, d, e, f, _, _) =
      descriptors_lem image.ldt image.ldt_size image.tss image.tss_size desc h.ldt_word h.ldt_short
        h.tss_word h.tss_short in
    (a, b, c, d, e, f, refl, refl, refl, refl)

pub machine-HasGates :
    (inb : ℕ → ℕ) (conv_buf : ℕ → Bytes) (loader : Bytes) (image : Image) (mbi : ℕ) (stack : Bytes)
    (desc : SegDesc) (idt : ℕ → IdtDesc) (k : Kernel)
    → IsLinked image
    → HasGates image (machine inb conv_buf loader image mbi stack desc idt k)
machine-HasGates inb conv_buf loader image mbi stack desc idt k h v lt =
    idt_init_lem image.address idt v h.routines lt
