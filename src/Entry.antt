-- ===== src/Entry.antt =====
-- student-distrib/kernel.c: `entry`, which the boot loader's information reaches, and the machine
-- that it leaves.
pub mod Frame
pub mod Tables
pub mod Ready
pub mod Boots
use Prim.Native.String.{String}
use light_os_a_linus_like_os.Common.{
  ℕ, zero, suc, ◌+◌, ◌-◌, ◌*◌, ◌/◌, ◌%◌, ◌^◌, u32, Option, none, some, ◌>>=◌, List, [], ◌∷◌, Bool,
  ◌&&◌, ltb, leb, ◌==◌, if◌then◌else◌, get_or,
}
use light_os_a_linus_like_os.Memory.{Bytes, load32, offset_by}
use light_os_a_linus_like_os.Text.{codes, bytes_of}
use light_os_a_linus_like_os.Kernel.{Pte, Kernel, sti}
use light_os_a_linus_like_os.Console.{clear}
use light_os_a_linus_like_os.Printf.{printf}
use light_os_a_linus_like_os.FileSystem.{init_filesystem}
use light_os_a_linus_like_os.Paging.{Layout, kernel_pte, page_initialize}
use light_os_a_linus_like_os.I8259.{i8259_init, enable_irq}
use light_os_a_linus_like_os.Keyboard.{keyboard_init}
use light_os_a_linus_like_os.Rtc.{rtc_enable_pie}
use light_os_a_linus_like_os.Idt.{IdtDesc, Routine, idt_init}
use light_os_a_linus_like_os.Gdt.{
  SegDesc, kernel_ds, kernel_tss, kernel_ldt, the_ldt_desc, the_tss_desc,
}
use light_os_a_linus_like_os.Process.Boot.{
  create_terminal_1_shell, create_terminal_2_shell, create_terminal_3_shell,
}
use light_os_a_linus_like_os.Process.Schedule.{pit_init}

abbrev pub multiboot_bootloader_magic : ℕ
multiboot_bootloader_magic = 0x2BADB002

-- What the linker and the assembly files give: addresses and sizes.
pub record Image : Type 0 where
  pub layout : Layout
  pub address : Routine → ℕ
  pub ldt : ℕ
  pub ldt_size : ℕ
  pub tss : ℕ
  pub tss_size : ℕ

-- The tables and registers of the processor that `entry` sets, beside the kernel's state.
pub record Machine : Type 0 where
  pub kernel : Kernel
  pub boot_block_pointer : Option Bytes
  pub idt : ℕ → IdtDesc
  pub ldt_desc_ptr : SegDesc
  pub tss_desc_ptr : SegDesc
  pub ldtr : ℕ
  pub tr : ℕ
  pub ldt_segment_selector : ℕ  -- `tss.ldt_segment_selector`
  pub ss0 : ℕ  -- `tss.ss0`

-- `entry` returns, with this `boot_block_pointer`, or it ends in its loop and waits for interrupts.
pub data Outcome : Type 0 where
  returned : Option Bytes → Kernel → Outcome
  waits : Machine → Outcome

-- Before `page_initialize` the processor does not translate addresses: each page stands for itself.
abbrev pub unpaged : Kernel → Kernel
unpaged k = record k { pg_tab_1 = kernel_pte }

-- `CHECK_FLAG`
abbrev pub check_flag : ℕ → ℕ → Bool
check_flag flags bit = flags / 2 ^ bit % 2 == 1

-- A `char` as the `int` that it is passed as.
abbrev pub char_to_int : ℕ → ℕ
char_to_int c = if leb 128 c then c + (u32 - 256) else c

-- `inb` is what reading a port gives, and `conv_buf` what `printf` finds on the stack. `loader` is
-- memory as the boot loader left it, with the information, the modules and the memory map in it;
-- what `entry` prints is written to the screen, outside them.
module _ (inb : ℕ → ℕ) (conv_buf : ℕ → Bytes) (loader : Bytes) where
  unfoldable pub print : String → List ℕ → Kernel → Option Kernel
  print format args k = do
    r ← printf (bytes_of (codes format)) (λ i. get_or args i 0) (λ p. offset_by p loader) conv_buf k
    some (r.1)

  abbrev pub print_if : Bool → String → List ℕ → Kernel → Option Kernel
  print_if b format args k = if b then print format args k else some k

  -- The first bytes of a module, `rounds` of them from `address` on.
  unfoldable pub print_bytes : ℕ → ℕ → Kernel → Option Kernel
  print_bytes zero address k = some k
  print_bytes (suc rounds) address k = do
    k1 ← print "0x%x " (char_to_int (loader address) ∷ []) k
    print_bytes rounds (suc address) k1

  unfoldable pub print_module : ℕ → ℕ → Kernel → Option Kernel
  print_module mod_count module_at k = do
    k1 ← print "Module %d loaded at address: 0x%#x\n" (mod_count ∷ load32 loader module_at ∷ []) k
    k2 ←
        print "Module %d ends at address: 0x%#x\n" (mod_count ∷ load32 loader (module_at + 4) ∷ [])
          k1
    k3 ← print "First few bytes of module:\n" [] k2
    k4 ← print_bytes 16 (load32 loader module_at) k3
    print "\n" [] k4

  -- The loop over the modules, with `rounds` left.
  unfoldable pub print_modules : ℕ → ℕ → ℕ → Kernel → Option Kernel
  print_modules zero mod_count module_at k = some k
  print_modules (suc rounds) mod_count module_at k = do
    k1 ← print_module mod_count module_at k
    print_modules rounds (suc mod_count) (module_at + 16) k1

  unfoldable pub print_region : ℕ → Kernel → Option Kernel
  print_region mmap =
      print "    size = 0x%x, base_addr = 0x%#x%#x\n    type = 0x%x,  length    = 0x%#x%#x\n" (
        load32 loader mmap
        ∷ load32 loader (mmap + 8)
        ∷ load32 loader (mmap + 4)
        ∷ load32 loader (mmap + 20)
        ∷ load32 loader (mmap + 16)
        ∷ load32 loader (mmap + 12)
        ∷ [])

  -- The loop over the memory map up to `end`. `none` if it does not end.
  unfoldable pub print_map : ℕ → ℕ → ℕ → Kernel → Option Kernel
  print_map zero end mmap k = none
  print_map (suc fuel) end mmap k =
      let rest = λ (k' : Kernel). print_map fuel end ((mmap + load32 loader mmap + 4) % u32) k' in
      if ltb mmap end then (do k1 ← print_region mmap k; rest k1) else some k

  -- The part before the test of the flags 4 and 5; `mbi` is the address of the information.
  unfoldable pub describe : ℕ → Kernel → Option Kernel
  describe mbi k =
      let flags = load32 loader mbi in
      do
        k1 ← print "flags = 0x%#x\n" (flags ∷ []) k
        k2 ←
            print_if (check_flag flags 0) "mem_lower = %uKB, mem_upper = %uKB\n"
              (load32 loader (mbi + 4) ∷ load32 loader (mbi + 8) ∷ []) k1
        k3 ←
            print_if (check_flag flags 1) "boot_device = 0x%#x\n" (load32 loader (mbi + 12) ∷ []) k2
        k4 ← print_if (check_flag flags 2) "cmdline = %s\n" (load32 loader (mbi + 16) ∷ []) k3
        (if check_flag flags 3
            then print_modules (load32 loader (mbi + 20)) 0 (load32 loader (mbi + 24)) k4
            else some k4)

  -- Where the memory map ends.
  abbrev pub mmap_end : ℕ → ℕ
  mmap_end mbi = (load32 loader (mbi + 48) + load32 loader (mbi + 44)) % u32

  -- The part after it.
  unfoldable pub describe_rest : ℕ → Kernel → Option Kernel
  describe_rest mbi k =
      let flags = load32 loader mbi in
      let mmap_length = load32 loader (mbi + 44) in
      let mmap_addr = load32 loader (mbi + 48) in
      do
        k1 ←
            print_if (check_flag flags 5)
              "elf_sec: num = %u, size = 0x%#x, addr = 0x%#x, shndx = 0x%#x\n"
              (load32 loader (mbi + 28)
                ∷ load32 loader (mbi + 32)
                ∷ load32 loader (mbi + 36)
                ∷ load32 loader (mbi + 40)
                ∷ [])
              k
        k2 ←
            print_if (check_flag flags 6) "mmap_addr = 0x%#x, mmap_length = 0x%x\n"
              (mmap_addr ∷ mmap_length ∷ []) k1
        (if check_flag flags 6 then print_map u32 (mmap_end mbi) mmap_addr k2 else some k2)

  -- `init_filesystem` gets the first module.
  abbrev pub boot_image : ℕ → Option Bytes
  boot_image mbi =
      if check_flag (load32 loader mbi) 3
      then init_filesystem (offset_by (load32 loader (load32 loader (mbi + 24))) loader)
      else none

  -- The initialisers up to `page_initialize`, which turns paging on; `tab` is the page table that
  -- it finds.
  unfoldable pub initialize : Image → (ℕ → Pte) → Kernel → Kernel
  initialize image tab k =
      let k1 = record (i8259_init inb (record k { esp0 = 0x800000 })) { pg_tab_1 = tab } in
      page_initialize image.layout (enable_irq inb 8 (rtc_enable_pie inb (keyboard_init inb k1)))

  -- From the shells on. `stack` is what the local arrays of the three functions hold.
  unfoldable pub start : Option Bytes → Bytes → Kernel → Kernel
  start boot stack k =
      let shells =
        create_terminal_3_shell boot stack
          (create_terminal_2_shell boot stack (create_terminal_1_shell boot stack k)) in
      sti (pit_init inb shells)

  -- `desc` is what the stack holds where the two descriptors are built.
  abbrev pub machine : Image → ℕ → Bytes → SegDesc → (ℕ → IdtDesc) → Kernel → Machine
  machine image mbi stack desc idt k = record {
    kernel = start (boot_image mbi) stack (clear k);
    boot_block_pointer = boot_image mbi;
    idt = idt_init image.address idt;
    ldt_desc_ptr = the_ldt_desc image.ldt image.ldt_size desc;
    tss_desc_ptr = the_tss_desc image.tss image.tss_size desc;
    ldtr = kernel_ldt;
    tr = kernel_tss;
    ldt_segment_selector = kernel_ldt;
    ss0 = kernel_ds;
  }

  unfoldable pub set_up :
      Image → ℕ → (ℕ → Pte) → Bytes → SegDesc → (ℕ → IdtDesc) → Kernel → Option Outcome
  set_up image mbi tab stack desc idt k = do
    k1 ← print "Enabling Interrupts\n" [] (initialize image tab k)
    some (waits (machine image mbi stack desc idt k1))

  abbrev pub give_up : Option Bytes → (ℕ → Pte) → Option Kernel → Option Outcome
  give_up boot tab o = do k ← o; some (returned boot (record k { pg_tab_1 = tab }))

  -- The file system is set up before the flags 4 and 5 are tested, and not with a wrong magic
  -- number: `boot_block_pointer` is NULL then.
  unfoldable pub entry : Image → Bytes → SegDesc → (ℕ → IdtDesc) → ℕ → ℕ → Kernel → Option Outcome
  entry image stack desc idt magic addr k =
      let tab = k.pg_tab_1 in
      let flags = load32 loader addr in
      let k1 = clear (unpaged k) in
      if magic == multiboot_bootloader_magic
      then (do
        k2 ← describe addr k1
        (if check_flag flags 4 && check_flag flags 5
            then give_up (boot_image addr) tab (print "Both bits 4 and 5 are set.\n" [] k2)
            else (do k3 ← describe_rest addr k2; set_up image addr tab stack desc idt k3)))
      else give_up none tab (print "Invalid magic number: 0x%#x\n" (magic ∷ []) k1)
