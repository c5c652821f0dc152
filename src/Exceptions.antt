-- ===== src/Exceptions.antt =====
-- student-distrib/exceptions.c: the handler of the processor's exceptions.
pub mod Names
pub mod Prints
use light_os_a_linus_like_os.Common.{
  ℕ, zero, suc, Option, none, some, ◌>>=◌, List, [], ◌∷◌, length, get_or, ltb, if◌then◌else◌,
}
use light_os_a_linus_like_os.Memory.{Bytes}
use light_os_a_linus_like_os.Text.{codes, bytes_of}
use light_os_a_linus_like_os.Kernel.{Kernel, cli}
use light_os_a_linus_like_os.Console.{blue_screen}
use light_os_a_linus_like_os.Printf.{printf}

abbrev pub exceptions : List (List ℕ)
exceptions =
    codes "Divide-by-zero Error"
    ∷ codes "Debug"
    ∷ codes "Non-maskable Interrupt"
    ∷ codes "Breakpoint"
    ∷ codes "Overflow"
    ∷ codes "Bound Range Exceeded"
    ∷ codes "Invalid Opcode"
    ∷ codes "Device Not Available"
    ∷ codes "Double Fault"
    ∷ codes "Coprocessor Segment Overrun"
    ∷ codes "Invalid TSS"
    ∷ codes "Segment Not Present"
    ∷ codes "Stack-Segment Fault"
    ∷ codes "General Protection Fault"
    ∷ codes "Page Fault"
    ∷ codes "Reserved"
    ∷ codes "x87 Floating-Point Exception"
    ∷ codes "Alignment Check"
    ∷ codes "Machine Check"
    ∷ codes "SIMD Floating-Point Exception"
    ∷ []

-- The kernel in which the handler's endless loop begins; `none` if the vector number is not an
-- index of the table. The argument of `printf` is a pointer to a literal, here its index.
unfoldable pub exception_handler : (ℕ → Bytes) → ℕ → Kernel → Option Kernel
exception_handler conv_buf vector_number k =
    if ltb vector_number (length exceptions)
    then (do
      r ←
          printf (bytes_of (codes "%s\n")) (λ _. vector_number)
            (λ p. bytes_of (get_or exceptions p [])) conv_buf (blue_screen (cli k))
      some (r.1))
    else none
