-- ===== src/Idt.antt =====
-- student-distrib/idtInit.c with the gates of x86_desc.h: the interrupt descriptor table.
pub mod Gates
use light_os_a_linus_like_os.Common.{
  ℕ, zero, suc, ◌+◌, ◌*◌, ◌/◌, ◌%◌, ◌^◌, List, [], ◌∷◌, ◌==◌, if◌then◌else◌,
}
use light_os_a_linus_like_os.Kernel.{put}

-- `idt_desc_t`
pub record IdtDesc : Type 0 where
  pub offset_15_00 : ℕ
  pub seg_selector : ℕ
  pub reserved4 : ℕ
  pub reserved3 : ℕ
  pub reserved2 : ℕ
  pub reserved1 : ℕ
  pub size : ℕ
  pub reserved0 : ℕ
  pub dpl : ℕ
  pub present : ℕ
  pub offset_31_16 : ℕ

abbrev pub kernel_cs : ℕ
kernel_cs = 0x10

abbrev pub system_call : ℕ
system_call = 0x80

abbrev pub largest_vector : ℕ
largest_vector = 0xFF

-- The assembly routines that the table leads to. Their addresses are the linker's.
pub data Routine : Type 0 where
  exception_divide_by_zero exception_debug exception_non_maskable_interrupt exception_breakpoint :
      Routine
  exception_overflow exception_bound_range_exceeded exception_invalid_opcode : Routine
  exception_device_not_available exception_double_fault : Routine
  exception_coprocessor_segment_overrun exception_invalid_tss exception_segment_not_present :
      Routine
  exception_stack_segment_fault exception_general_protection exception_page_fault : Routine
  exception_fpu_floating_point_error exception_alignment_check exception_machine_check : Routine
  exception_simd_floating_point_exception : Routine
  pit_handler_linkage keyboard_handler_linkage rtc_handler_linkage syscall_wrapper : Routine

-- The body of the loop. What the entry held before stays in the offset.
abbrev pub clear_gate : ℕ → IdtDesc → IdtDesc
clear_gate index e = record e {
  present = 0;
  size = 1;
  seg_selector = kernel_cs;
  dpl = if index == system_call then 3 else 0;
  reserved0 = 0;
  reserved1 = 1;
  reserved2 = 1;
  reserved3 = 1;
  reserved4 = 0;
}

-- The loop over the table, with `rounds` entries left from `index` on.
unfoldable pub clear_gates : ℕ → ℕ → (ℕ → IdtDesc) → ℕ → IdtDesc
clear_gates zero index idt = idt
clear_gates (suc rounds) index idt =
    clear_gates rounds (suc index) (put idt index (clear_gate index (idt index)))

-- `SET_IDT_ENTRY`
abbrev pub set_idt_entry : ℕ → IdtDesc → IdtDesc
set_idt_entry handler e = record e {
  present = 1;
  offset_31_16 = handler / 2 ^ 16 % 2 ^ 16;
  offset_15_00 = handler % 2 ^ 16;
}

-- The vectors and routines of the `SET_IDT_ENTRY` lines.
abbrev pub set_lines : List (ℕ × Routine)
set_lines =
    (0x00, exception_divide_by_zero)
    ∷ (0x01, exception_debug)
    ∷ (0x02, exception_non_maskable_interrupt)
    ∷ (0x03, exception_breakpoint)
    ∷ (0x04, exception_overflow)
    ∷ (0x05, exception_bound_range_exceeded)
    ∷ (0x06, exception_invalid_opcode)
    ∷ (0x07, exception_device_not_available)
    ∷ (0x08, exception_double_fault)
    ∷ (0x09, exception_coprocessor_segment_overrun)
    ∷ (0x0A, exception_invalid_tss)
    ∷ (0x0B, exception_segment_not_present)
    ∷ (0x0C, exception_stack_segment_fault)
    ∷ (0x0D, exception_general_protection)
    ∷ (0x0E, exception_page_fault)
    ∷ (0x10, exception_fpu_floating_point_error)
    ∷ (0x11, exception_alignment_check)
    ∷ (0x12, exception_machine_check)
    ∷ (0x13, exception_simd_floating_point_exception)
    ∷ (0x20, pit_handler_linkage)
    ∷ (0x21, keyboard_handler_linkage)
    ∷ (0x28, rtc_handler_linkage)
    ∷ (system_call, syscall_wrapper)
    ∷ []

unfoldable pub set_all : (Routine → ℕ) → List (ℕ × Routine) → (ℕ → IdtDesc) → ℕ → IdtDesc
set_all address [] idt = idt
set_all address ((vector, routine) ∷ rest) idt =
    set_all address rest (put idt vector (set_idt_entry (address routine) (idt vector)))

-- `lidt`, which loads the table's register, is assembly and changes no entry.
unfoldable pub idt_init : (Routine → ℕ) → (ℕ → IdtDesc) → ℕ → IdtDesc
unfolding clear_gates set_all
idt_init address idt = set_all address set_lines (clear_gates (largest_vector + 1) 0 idt)
