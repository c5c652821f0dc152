-- ===== src/Exceptions/Names.antt =====
-- The names of the processor's exceptions, and that the table of exceptions.c has them.
use light_os_a_linus_like_os.Common.{
  ℕ, zero, suc, ◌<◌, ◌≡◌, refl, List, [], get_or, ◌==◌, if◌then◌else◌, arith,
}
use light_os_a_linus_like_os.Text.{codes}
use light_os_a_linus_like_os.Exceptions.{exceptions}

above :
    (v : ℕ)
    → ¬ (
        suc (
          suc (
            suc (
              suc (
                suc (
                  suc (
                    suc (
                      suc (
                        suc (
                          suc (suc (suc (suc (suc (suc (suc (suc (suc (suc (suc v)))))))))))))))))))
        < 20)
above v lt = omega arith

-- The names of the processor's exceptions.
abbrev pub message : ℕ → List ℕ
message v =
    if v == 0
    then codes "Divide-by-zero Error"
    else if v == 1
    then codes "Debug"
    else if v == 2
    then codes "Non-maskable Interrupt"
    else if v == 3
    then codes "Breakpoint"
    else if v == 4
    then codes "Overflow"
    else if v == 5
    then codes "Bound Range Exceeded"
    else if v == 6
    then codes "Invalid Opcode"
    else if v == 7
    then codes "Device Not Available"
    else if v == 8
    then codes "Double Fault"
    else if v == 9
    then codes "Coprocessor Segment Overrun"
    else if v == 10
    then codes "Invalid TSS"
    else if v == 11
    then codes "Segment Not Present"
    else if v == 12
    then codes "Stack-Segment Fault"
    else if v == 13
    then codes "General Protection Fault"
    else if v == 14
    then codes "Page Fault"
    else if v == 15
    then codes "Reserved"
    else if v == 16
    then codes "x87 Floating-Point Exception"
    else if v == 17
    then codes "Alignment Check"
    else if v == 18
    then codes "Machine Check"
    else codes "SIMD Floating-Point Exception"

pub names : (v : ℕ) → v < 20 → get_or exceptions v [] ≡ message v
names zero lt = refl
names (suc zero) lt = refl
names (suc (suc zero)) lt = refl
names (suc (suc (suc zero))) lt = refl
names (suc (suc (suc (suc zero)))) lt = refl
names (suc (suc (suc (suc (suc zero))))) lt = refl
names (suc (suc (suc (suc (suc (suc zero)))))) lt = refl
names (suc (suc (suc (suc (suc (suc (suc zero))))))) lt = refl
names (suc (suc (suc (suc (suc (suc (suc (suc zero)))))))) lt = refl
names (suc (suc (suc (suc (suc (suc (suc (suc (suc zero))))))))) lt = refl
names (suc (suc (suc (suc (suc (suc (suc (suc (suc (suc zero)))))))))) lt = refl
names (suc (suc (suc (suc (suc (suc (suc (suc (suc (suc (suc zero))))))))))) lt = refl
names (suc (suc (suc (suc (suc (suc (suc (suc (suc (suc (suc (suc zero)))))))))))) lt = refl
names (suc (suc (suc (suc (suc (suc (suc (suc (suc (suc (suc (suc (suc zero))))))))))))) lt = refl
names (suc (suc (suc (suc (suc (suc (suc (suc (suc (suc (suc (suc (suc (suc zero)))))))))))))) lt =
    refl
names (suc (suc (suc (suc (suc (suc (suc (suc (suc (suc (suc (suc (suc (suc (suc zero)))))))))))))))
      lt =
    refl
names
      (suc (
        suc
          (suc (suc (suc (suc (suc (suc (suc (suc (suc (suc (suc (suc (suc (suc zero))))))))))))))))
      lt =
    refl
names
      (suc (
        suc (
          suc (
            suc
              (suc (suc (suc (suc (suc (suc (suc (suc (suc (suc (suc (suc (suc zero)))))))))))))))))
      lt =
    refl
names
      (suc (
        suc (
          suc (
            suc (
              suc (
                suc
                  (suc (suc (suc (suc (suc (suc (suc (suc (suc (suc (suc (suc zero))))))))))))))))))
      lt =
    refl
names
      (suc (
        suc (
          suc (
            suc (
              suc (
                suc (
                  suc (
                    suc
                      (suc (suc (suc (suc (suc (suc (suc (suc (suc (suc (suc zero)))))))))))))))))))
      lt =
    refl
names
      (suc (
        suc (
          suc (
            suc (
              suc (
                suc (
                  suc (
                    suc (
                      suc
                        (suc (suc (suc (suc (suc (suc (suc (suc (suc (suc (suc v))))))))))))))))))))
      lt =
    absurd (above v lt)
