-- ===== src/Idt/Gates.antt =====
-- Where an interrupt goes once the interrupt descriptor table is set up.
use mathlib.Core.Option
use mathlib.Core.Path.{subst}
use mathlib.Core.Bool.{false≢true}
use native.Mathlib.Decide.{ℕ_discrete}
use light_os_a_linus_like_os.Common.{
  ℕ, zero, suc, ◌+◌, ◌-◌, ◌*◌, ◌/◌, ◌%◌, ◌^◌, ◌<◌, ◌≡◌, ◌∙◌, refl, Option, none, some, List, [],
  ◌∷◌, ltb, leb, ◌&&◌, ◌==◌, if◌then◌else◌, arith, Bool, true, false, inl, inr, u32, ap, sym,
  Option-cases, ==_self, ==_no,
}
use light_os_a_linus_like_os.Kernel.{put}
use light_os_a_linus_like_os.Idt.{
  IdtDesc, Routine, kernel_cs, system_call, clear_gate, clear_gates, set_idt_entry, set_lines,
  set_all, idt_init, exception_divide_by_zero, exception_debug, exception_non_maskable_interrupt,
  exception_breakpoint, exception_overflow, exception_bound_range_exceeded,
  exception_invalid_opcode, exception_device_not_available, exception_double_fault,
  exception_coprocessor_segment_overrun, exception_invalid_tss, exception_segment_not_present,
  exception_stack_segment_fault, exception_general_protection, exception_page_fault,
  exception_fpu_floating_point_error, exception_alignment_check, exception_machine_check,
  exception_simd_floating_point_exception, pit_handler_linkage, keyboard_handler_linkage,
  rtc_handler_linkage, syscall_wrapper,
}

clear_gates_lem :
    (rounds index : ℕ) (idt : ℕ → IdtDesc) (v : ℕ)
    → clear_gates rounds index idt v
      ≡ (if leb index v && ltb v (index + rounds) then clear_gate v (idt v) else idt v)
unfolding clear_gates
clear_gates_lem zero index idt v = ground arith
clear_gates_lem (suc rounds) index idt v =
    ground
      (arith, clear_gates_lem rounds (suc index) (put idt index (clear_gate index (idt index))) v)

-- The routine that a list of lines has for a vector.
abbrev routine_of : List (ℕ × Routine) → ℕ → Option Routine
routine_of [] v = none
routine_of ((vector, routine) ∷ rest) v = if vector == v then some routine else routine_of rest v

-- No vector stands twice in the list.
abbrev vectors_differ : List (ℕ × Routine) → Bool
vectors_differ [] = true
vectors_differ ((vector, routine) ∷ rest) = elim (routine_of rest vector) [
  | none ↦ vectors_differ rest
  | some _ ↦ false
]

abbrev set_to : (Routine → ℕ) → Option Routine → IdtDesc → IdtDesc
set_to address none e = e
set_to address (some routine) e = set_idt_entry (address routine) e

set_all_lem :
    (address : Routine → ℕ) (lines : List (ℕ × Routine)) (idt : ℕ → IdtDesc) (v : ℕ)
    → vectors_differ lines ≡ true
    → set_all address lines idt v ≡ set_to address (routine_of lines v) (idt v)
unfolding set_all
set_all_lem address [] idt v h = refl
set_all_lem address ((vector, routine) ∷ rest) idt v h =
    elim (Option-cases (routine_of rest vector)) [
      | inl e ↦
          set_all_lem address rest (put idt vector (set_idt_entry (address routine) (idt vector))) v
            (rw (e, vectors_differ) at h)
          ∙ elim (ℕ_discrete vector v) [
            | yes q ↦ rw (← q, e, ==_self vector) refl
            | no q ↦ rw (==_no vector v q) refl
          ]
      | inr (r, e) ↦ absurd (false≢true (rw (e, vectors_differ) at h))
    ]

-- What the processor takes from a gate: where it goes, or that it is not present.
abbrev pub target : IdtDesc → Option ℕ
target e = if e.present == 1 then some (e.offset_31_16 * 2 ^ 16 + e.offset_15_00) else none

-- The bits of a gate that say what it does, but for its target.
abbrev pub IsKernelTrap : ℕ → IdtDesc → Type 0
IsKernelTrap dpl e =
    (e.seg_selector ≡ kernel_cs)
    × (e.dpl ≡ dpl)
    × (e.size * 8 + e.reserved1 * 4 + e.reserved2 * 2 + e.reserved3 ≡ 15)
    × (e.reserved0 ≡ 0)
    × (e.reserved4 ≡ 0)

-- The target of a gate whose routine is known.
target-set :
    (address : Routine → ℕ) (o : Option Routine) (e : IdtDesc)
    → ((r : Routine) → address r < u32)
    → e.present ≡ 0
    → target (set_to address o e) ≡ Option.map address o
target-set address none e small clear = rw clear refl
target-set address (some r) e small clear = ap some (word (address r) (small r))
  where
    word : (a : ℕ) → a < u32 → a / 2 ^ 16 % 2 ^ 16 * 2 ^ 16 + a % 2 ^ 16 ≡ a
    word a h = omega arith

-- The routine of an interrupt that is no exception: the two interrupt controllers' lines start at
-- 0x20 and 0x28, the timer is line 0, the keyboard line 1 and the clock line 8; programs call the
-- kernel through 0x80.
abbrev service_of : ℕ → Option Routine
service_of v =
    if 0x20 + 0 == v
    then some pit_handler_linkage
    else if 0x20 + 1 == v
    then some keyboard_handler_linkage
    else if 0x28 + (8 - 8) == v
    then some rtc_handler_linkage
    else if 0x80 == v
    then some syscall_wrapper
    else none

-- The routine of each vector, where the processor numbers its exceptions 0 to 14 and 16 to 19.
abbrev pub expected : ℕ → Option Routine
expected v =
    if 0 == v
    then some exception_divide_by_zero
    else if 1 == v
    then some exception_debug
    else if 2 == v
    then some exception_non_maskable_interrupt
    else if 3 == v
    then some exception_breakpoint
    else if 4 == v
    then some exception_overflow
    else if 5 == v
    then some exception_bound_range_exceeded
    else if 6 == v
    then some exception_invalid_opcode
    else if 7 == v
    then some exception_device_not_available
    else if 8 == v
    then some exception_double_fault
    else if 9 == v
    then some exception_coprocessor_segment_overrun
    else if 10 == v
    then some exception_invalid_tss
    else if 11 == v
    then some exception_segment_not_present
    else if 12 == v
    then some exception_stack_segment_fault
    else if 13 == v
    then some exception_general_protection
    else if 14 == v
    then some exception_page_fault
    else if 16 == v
    then some exception_fpu_floating_point_error
    else if 17 == v
    then some exception_alignment_check
    else if 18 == v
    then some exception_machine_check
    else if 19 == v
    then some exception_simd_floating_point_exception
    else service_of v

set_lines-expected : (v : ℕ) → routine_of set_lines v ≡ expected v
set_lines-expected v = refl

set_to-IsKernelTrap :
    (address : Routine → ℕ) (o : Option Routine) (dpl : ℕ) (e : IdtDesc)
    → IsKernelTrap dpl e
    → IsKernelTrap dpl (set_to address o e)
set_to-IsKernelTrap address none dpl e h = h
set_to-IsKernelTrap address (some r) dpl e h = h

-- After `idt_init` the gates of the 19 exceptions, of the timer, the keyboard and the clock, and of
-- the system call lead to the routine of that service, and every other one of the 256 vectors is
-- not present. All gates are 32-bit trap
-- gates of the kernel's code segment; only the system call's is open to user programs. The
-- routines' addresses are 32-bit words.
pub idt_init_lem :
    (address : Routine → ℕ) (idt : ℕ → IdtDesc) (v : ℕ)
    → ((r : Routine) → address r < u32)
    → v < 256
    → let e = idt_init address idt v in
      (target e ≡ Option.map address (expected v))
      × IsKernelTrap (if v == system_call then 3 else 0) e
unfolding idt_init
idt_init_lem address idt v small lt =
    let cleared : clear_gates 256 0 idt v ≡ clear_gate v (idt v) =
      clear_gates_lem 256 0 idt v ∙ inside in
    let all : set_all address set_lines (clear_gates 256 0 idt) v
        ≡ set_to address (routine_of set_lines v) (clear_gate v (idt v)) =
      set_all_lem address set_lines (clear_gates 256 0 idt) v refl
      ∙ ap (set_to address (routine_of set_lines v)) cleared in
    let o = routine_of set_lines v in
    (
      ap target all
          ∙ target-set address o (clear_gate v (idt v)) small refl
          ∙ ap (Option.map address) (set_lines-expected v),
      subst (IsKernelTrap (if v == system_call then 3 else 0)) (sym all) (
          set_to-IsKernelTrap address o (if v == system_call then 3 else 0) (clear_gate v (idt v))
            (refl, refl, refl, refl, refl)),
    )
  where
    inside :
        (if leb 0 v && ltb v (0 + 256) then clear_gate v (idt v) else idt v) ≡ clear_gate v (idt v)
    inside = ground arith
