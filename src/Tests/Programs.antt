-- ===== src/Tests/Programs.antt =====
-- Examples for the start of the kernel, the exceptions and the programs.
use mathlib.Core.Option
use light_os_a_linus_like_os.Common.{
  ℕ, zero, suc, ◌+◌, ◌/◌, ◌≡◌, refl, ap, ◌∙◌, fun_ext, some, [], ◌∷◌, ◌++◌, true, replicate, ◌==◌,
  if◌then◌else◌, arith,
}
use light_os_a_linus_like_os.Memory.{Bytes, memcpy, update}
use light_os_a_linus_like_os.Kernel.{Kernel, Pcb, cli, set_pcb, terminal_file_ops_stdout}
use light_os_a_linus_like_os.Console.{put_all}
use light_os_a_linus_like_os.Console.Keeps.{Keeps}
use light_os_a_linus_like_os.Printf.Texts.{slice}
use light_os_a_linus_like_os.Idt.{IdtDesc, idt_init, system_call}
use light_os_a_linus_like_os.Idt.Gates.{target, expected, IsKernelTrap, idt_init_lem}
use light_os_a_linus_like_os.Gdt.{SegDesc}
use light_os_a_linus_like_os.Exceptions.{exception_handler}
use light_os_a_linus_like_os.Exceptions.Prints.{exception_handler_lem}
use light_os_a_linus_like_os.Exceptions.Names.{message}
use light_os_a_linus_like_os.Console.Blue.{IsBlue}
use light_os_a_linus_like_os.FileSystem.{direntry, read_dentry_by_name, inode_length}
use light_os_a_linus_like_os.FileSystem.Data.{file_byte}
use light_os_a_linus_like_os.Descriptors.Open.{IsFirstFree}
use light_os_a_linus_like_os.Entry.{Image}
use light_os_a_linus_like_os.Devices.{World, set_kernel}
use light_os_a_linus_like_os.Programs.Cat.{cat}
use light_os_a_linus_like_os.Programs.Cat.Prints.{cat_lem}
use light_os_a_linus_like_os.Tests.{zeros, image, name, layout, process, used, unused, cpu, kernel}
use light_os_a_linus_like_os.Tests.Files.{name-IsLength, name_found}

abbrev gate : IdtDesc
gate = record {
  offset_15_00 = 0;
  seg_selector = 0;
  reserved4 = 0;
  reserved3 = 0;
  reserved2 = 0;
  reserved1 = 0;
  size = 0;
  reserved0 = 0;
  dpl = 0;
  present = 0;
  offset_31_16 = 0;
}

idt_init_lem_example :
    let e = idt_init (λ r. 0x401234) (λ v. gate) 0x80 in
    (target e ≡ Option.map (λ r. 0x401234) (expected 0x80))
    × IsKernelTrap (if 0x80 == system_call then 3 else 0) e
idt_init_lem_example =
    idt_init_lem (λ r. 0x401234) (λ v. gate) 0x80 (λ r. omega arith) (omega arith)

exception_handler_lem_example :
    (blue_kernel k' : Kernel) × (exception_handler (λ i. zeros) 14 kernel ≡ some k')
    × IsBlue (cli kernel) blue_kernel
    × (k' ≡ put_all (message 14 ++ (b'\n' ∷ [])) blue_kernel)
    × (k'.cpu.interrupts ≡ true)
exception_handler_lem_example = exception_handler_lem (λ i. zeros) 14 kernel (omega arith)

abbrev linked : Image
linked = record {
  layout = layout;
  address = λ r. 0x401234;
  ldt = 0x402000;
  ldt_size = 31;
  tss = 0x402100;
  tss_size = 103;
}

abbrev segment : SegDesc
segment = record {
  seg_lim_15_00 = 0;
  base_15_00 = 0;
  base_23_16 = 0;
  type_field = 0;
  sys = 0;
  dpl = 0;
  present = 0;
  seg_lim_19_16 = 0;
  avail = 0;
  reserved = 0;
  opsize = 0;
  granularity = 0;
  base_31_24 = 0;
}

-- Information at 0x9000 with the flags 0 and 6, and an empty memory map.
abbrev loader : Bytes
loader = update zeros 0x9000 0x41

-- `cat ls`, with the terminal at descriptor 1.
abbrev pub caller : Pcb
caller =
    let p = process 1 in
    record p {
      file_descriptor_array =
          used ∷ record used { file_ops = some terminal_file_ops_stdout } ∷ replicate 6 unused;
      arg_buf = name;
    }

abbrev pub world : World
world = record {
  kernel = record kernel { pcbs = λ pid. caller; argument_exist = 1 };
  inputs = [];
  ticks = 0;
  is_running = true;
}

pub caller-IsFirstFree : IsFirstFree caller 2 2
caller-IsFirstFree = record {
  low = omega arith;
  high = omega arith;
  used = λ i a b. absurd (omega arith);
  free = λ h. omega arith;
}

copy-name : (i : ℕ) → memcpy 3 0 0 name zeros i ≡ name i
unfolding memcpy
copy-name zero = refl
copy-name (suc zero) = refl
copy-name (suc (suc zero)) = refl
copy-name (suc (suc (suc i))) = ground arith

copy_found :
    read_dentry_by_name (some image) (some (memcpy 3 0 0 name zeros)) ≡ some (direntry image 1)
copy_found = ap (λ b. read_dentry_by_name (some image) (some b)) (fun_ext copy-name) ∙ name_found

cat_lem_example :
    (p' : Pcb) × (cat (some image) (2 + inode_length image 1 / 1024) zeros world
      ≡ some (
        0,
        set_kernel
            (set_pcb 4 p'
              (put_all (slice (file_byte image 1) 0 (inode_length image 1)) world.kernel))
            world,
      ))
cat_lem_example =
    cat_lem image zeros world 2 0 2 (direntry image 1) (omega arith) name-IsLength (omega arith)
      refl caller-IsFirstFree (omega arith) refl copy_found refl refl (omega arith) (omega arith)
      (omega arith)
