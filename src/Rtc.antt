-- ===== src/Rtc.antt =====
-- student-distrib/rtc.c: the real-time clock and the clock of each terminal that is derived from
-- it. `inb` is what reading a port gives.
pub mod Rates
pub mod Ticks
use Prim.Native.Nat.{bit_and, bit_or}
use light_os_a_linus_like_os.Common.{
  ℕ, zero, suc, ◌+◌, ◌-◌, ◌*◌, ◌/◌, ℤ, pos, negsuc, failure, to_int32, Option, none, some, Bool,
  true, false, not, ◌||◌, ltb, ◌==◌, if◌then◌else◌,
}
use light_os_a_linus_like_os.Memory.{Bytes, load32}
use light_os_a_linus_like_os.Kernel.{TerminalId, Terminal, Kernel, set_terminal, outb}
use light_os_a_linus_like_os.I8259.{enable_irq, send_eoi}
use light_os_a_linus_like_os.FileSystem.{DirEntry, read_dentry_by_name, type_file}

abbrev pub register_a : ℕ
register_a = 0x8A

abbrev pub register_b : ℕ
register_b = 0x8B

abbrev pub register_c : ℕ
register_c = 0x8C

abbrev pub rtc_port_0x70 : ℕ
rtc_port_0x70 = 0x70

abbrev pub rtc_port_0x71 : ℕ
rtc_port_0x71 = 0x71

-- `if (virtual_count > 0) virtual_count--`
abbrev pub count_down : Terminal → Terminal
count_down t = record t { virtual_count = t.virtual_count - 1 }

unfoldable pub rtc_handler : Kernel → Kernel
rtc_handler k =
    let k1 = outb register_c rtc_port_0x70 (record k { rtc_read_flag = 0 }) in
    send_eoi 8 (record k1 { terminals = λ i. count_down (k.terminals i) })

-- A register is selected, read, selected again and written.
abbrev write_register : (ℕ → ℕ) → ℕ → (ℕ → ℕ) → Kernel → Kernel
write_register inb register change k =
    outb (change (inb rtc_port_0x71)) rtc_port_0x71
      (outb register rtc_port_0x70 (outb register rtc_port_0x70 k))

unfoldable pub rtc_enable_pie : (ℕ → ℕ) → Kernel → Kernel
rtc_enable_pie inb = write_register inb register_b (λ prev. bit_or prev 0x40)

unfoldable pub rtc_disable_pie : (ℕ → ℕ) → Kernel → Kernel
rtc_disable_pie inb = write_register inb register_b (λ prev. bit_and prev 0xBF)

unfoldable pub rtc_set_interrupt_rate : (ℕ → ℕ) → ℕ → Kernel → Kernel
rtc_set_interrupt_rate inb rate =
    write_register inb register_a (λ prev. bit_or (bit_and prev 0xF0) rate)

-- The hardware part of `rtc_open`.
abbrev start_clock : (ℕ → ℕ) → Kernel → Kernel
start_clock inb k =
    let k1 = rtc_enable_pie inb k in
    let k2 = rtc_set_interrupt_rate inb 0x06 (record k1 { physical_rate = 1024 }) in
    let t = k2.terminals k2.active_terminal in
    enable_irq inb 8 (set_terminal k2.active_terminal (record t { virtual_rate = 2 }) k2)

open_entry : (ℕ → ℕ) → Option DirEntry → ℤ → Kernel → ℤ × ℤ × Kernel
open_entry inb none fd k = (failure, fd, k)
open_entry inb (some entry) fd k =
    if entry.filetype == type_file
    then (pos 0, to_int32 entry.inode_num, start_clock inb k)
    else (failure, fd, k)

-- The result, the new `*fd` and the kernel.
unfoldable pub rtc_open : (ℕ → ℕ) → Option Bytes → ℤ → Option Bytes → Kernel → ℤ × ℤ × Kernel
unfolding open_entry rtc_enable_pie rtc_set_interrupt_rate
rtc_open inb boot fd none k = (failure, fd, k)
rtc_open inb none fd (some filename) k = (failure, fd, k)
rtc_open inb (some image) fd (some filename) k =
    open_entry inb (read_dentry_by_name (some image) (some filename)) fd k

unfoldable pub rtc_close : (ℕ → ℕ) → Kernel → ℤ × Kernel
unfolding rtc_disable_pie
rtc_close inb k = (pos 0, rtc_disable_pie inb k)

-- `while (active_terminal->virtual_count != 0);` while `ticks` interrupts of the clock arrive;
-- `none` if it still waits after them.
wait_ticks : ℕ → Kernel → Option Kernel
wait_ticks zero k = if (k.terminals k.active_terminal).virtual_count == 0 then some k else none
wait_ticks (suc ticks) k =
    let rest = wait_ticks ticks (rtc_handler k) in
    if (k.terminals k.active_terminal).virtual_count == 0 then some k else rest

-- The terminal's clock starts again, at its rate.
abbrev pub restart : Kernel → Kernel
restart k =
    let t = k.terminals k.active_terminal in
    set_terminal k.active_terminal (record t { virtual_count = k.physical_rate / t.virtual_rate }) k

-- The call returns 0, once it returns. At a rate of 0 the division faults, and the exception's handler
-- never returns.
unfoldable pub rtc_read : ℕ → Kernel → Option Kernel
unfolding wait_ticks
rtc_read ticks k =
    if (k.terminals k.active_terminal).virtual_rate == 0 then none else wait_ticks ticks (restart k)

-- `rtc_read_device` waits for the next interrupt, whichever rate is set.
unfoldable pub rtc_read_device : ℕ → Kernel → Option Kernel
rtc_read_device zero k = none
rtc_read_device (suc ticks) k = some (rtc_handler (record k { rtc_read_flag = 1 }))

-- The loop of `rtc_write`: does doubling `i` while it is below 1030 meet the rate?
meets : ℕ → ℕ → ℕ → Bool
meets zero i rate = false
meets (suc fuel) i rate =
    let rest = meets fuel (i * 2) rate in
    if ltb i 1030 then (if i == rate then true else rest) else false

abbrev pub set_rate : ℕ → Kernel → Kernel
set_rate rate k =
    let t = k.terminals k.active_terminal in
    set_terminal k.active_terminal
      (record t { virtual_rate = rate; virtual_count = k.physical_rate / rate }) k

write_rate : ℤ → Kernel → ℤ × Kernel
unfolding meets
write_rate (negsuc n) k = (failure, k)
write_rate (pos rate) k =
    if ltb rate 2 || ltb 1024 rate
    then (failure, k)
    else if meets 11 2 rate
    then (pos 0, set_rate rate k)
    else (failure, k)

unfoldable pub rtc_write : Option Bytes → Kernel → ℤ × Kernel
unfolding write_rate
rtc_write none k = (failure, k)
rtc_write (some buf) k = write_rate (to_int32 (load32 buf 0)) k

-- The cases of `rtc_write_device`: the rate code of each rate.
rate_code : ℕ → Option ℕ
rate_code rate =
    if rate == 2
    then some 0x0F
    else if rate == 4
    then some 0x0E
    else if rate == 8
    then some 0x0D
    else if rate == 16
    then some 0x0C
    else if rate == 32
    then some 0x0B
    else if rate == 64
    then some 0x0A
    else if rate == 128
    then some 0x09
    else if rate == 256
    then some 0x08
    else if rate == 512
    then some 0x07
    else if rate == 1024
    then some 0x06
    else none

set_device : (ℕ → ℕ) → ℕ → Option ℕ → Kernel → ℤ × Kernel
set_device inb rate none k = (failure, k)
set_device inb rate (some code) k =
    let k1 = rtc_set_interrupt_rate inb code k in (pos 0, record k1 { physical_rate = rate })

write_device : (ℕ → ℕ) → ℤ → Kernel → ℤ × Kernel
unfolding rate_code set_device
write_device inb (negsuc n) k = (failure, k)
write_device inb (pos rate) k =
    if ltb rate 2 || ltb 1024 rate then (failure, k) else set_device inb rate (rate_code rate) k

unfoldable pub rtc_write_device : (ℕ → ℕ) → Option Bytes → Kernel → ℤ × Kernel
unfolding write_device rtc_set_interrupt_rate
rtc_write_device inb none k = (failure, k)
rtc_write_device inb (some buf) k = write_device inb (to_int32 (load32 buf 0)) k
