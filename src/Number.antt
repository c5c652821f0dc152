-- ===== src/Number.antt =====
-- `itoa` of student-distrib/lib.c: a number as the string of its digits.
pub mod Digits
pub mod Reading
use light_os_a_linus_like_os.Common.{
  ℕ, zero, suc, ◌+◌, ◌-◌, ◌/◌, ◌%◌, Option, none, some, ◌>>=◌, ltb, ◌==◌, if◌then◌else◌,
}
use light_os_a_linus_like_os.Memory.{Bytes, update}
use light_os_a_linus_like_os.CString.Reverse.{strrev}

-- The 36 characters of the table and the NUL behind them. The read of a later entry leaves the
-- table.
abbrev pub digit : ℕ → Option ℕ
digit i =
    if ltb i 10
    then some (b'0' + i)
    else if ltb i 36
    then some (b'A' + (i - 10))
    else if i == 36
    then some 0
    else none

-- The rounds that the loop may take: one for each bit, and the last test.
abbrev pub rounds : ℕ
rounds = 33

-- The loop, with the number that is left and the index that `newbuf` points to. `none` is a
-- fault: a division by 0, a digit that is not in the table, or a loop that does not end.
unfoldable pub digits_from : ℕ → ℕ → ℕ → ℕ → Bytes → Option Bytes
digits_from zero radix newval k buf = none
digits_from (suc fuel) radix newval k buf =
    let rest = λ (c : ℕ). digits_from fuel radix (newval / radix) (suc k) (update buf k c) in
    if ltb 0 newval
    then (if radix == 0 then none else do c ← digit (newval % radix); rest c)
    else some (update buf k 0)

-- `value` and `radix` are 32-bit words.
unfoldable pub itoa : ℕ → Bytes → ℕ → Option Bytes
itoa value buf radix =
    if value == 0
    then some (update (update buf 0 b'0') 1 0)
    else do s ← digits_from rounds radix value 0 buf; some (strrev s)
