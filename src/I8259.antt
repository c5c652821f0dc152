-- ===== src/I8259.antt =====
-- student-distrib/i8259.c: the two interrupt controllers. `inb` is what reading a port gives.
pub mod Masks
use Prim.Native.Nat.{bit_and, bit_or}
use light_os_a_linus_like_os.Common.{ℕ, ◌-◌, ◌^◌, ltb, leb, if◌then◌else◌}
use light_os_a_linus_like_os.Kernel.{Kernel, outb}

abbrev pub mask_all : ℕ
mask_all = 0xff

abbrev pub port_master : ℕ
port_master = 0x21

abbrev pub port_slave : ℕ
port_slave = 0xA1

abbrev pub maximum_irq_number : ℕ
maximum_irq_number = 15

abbrev pub number_irq_master : ℕ
number_irq_master = 8

abbrev pub irq_number_of_slave : ℕ
irq_number_of_slave = 2

abbrev pub master_8259_port : ℕ
master_8259_port = 0x20

abbrev pub slave_8259_port : ℕ
slave_8259_port = 0xA0

abbrev pub eoi : ℕ
eoi = 0x60

unfoldable pub enable_irq : (ℕ → ℕ) → ℕ → Kernel → Kernel
enable_irq inb irq_num k =
    if ltb maximum_irq_number irq_num
    then k
    else if ltb irq_num number_irq_master
    then outb (bit_and (inb port_master) (255 - 2 ^ irq_num)) port_master k
    else outb (bit_and (inb port_slave) (255 - 2 ^ (irq_num - number_irq_master))) port_slave k

unfoldable pub disable_irq : (ℕ → ℕ) → ℕ → Kernel → Kernel
disable_irq inb irq_num k =
    if ltb maximum_irq_number irq_num
    then k
    else if ltb irq_num number_irq_master
    then outb (bit_or (inb port_master) (2 ^ irq_num)) port_master k
    else outb (bit_or (inb port_slave) (2 ^ (irq_num - number_irq_master))) port_slave k

-- The recursive call of `send_eoi` is made for the master's line 2 only, and goes one level deep.
abbrev send_eoi_master : ℕ → Kernel → Kernel
send_eoi_master irq_num = outb (bit_or eoi irq_num) master_8259_port

unfoldable pub send_eoi : ℕ → Kernel → Kernel
send_eoi irq_num k =
    if ltb maximum_irq_number irq_num
    then k
    else if leb number_irq_master irq_num
    then send_eoi_master irq_number_of_slave
        (outb (bit_or eoi (irq_num - number_irq_master)) slave_8259_port k)
    else send_eoi_master irq_num k

unfoldable pub i8259_init : (ℕ → ℕ) → Kernel → Kernel
unfolding enable_irq
i8259_init inb k =
    let icw1 = outb 0x11 slave_8259_port (outb 0x11 master_8259_port k) in
    let icw2 = outb 0x28 port_slave (outb 0x20 port_master icw1) in
    let icw3 = outb 0x02 port_slave (outb 0x04 port_master icw2) in
    let icw4 = outb 0x01 port_slave (outb 0x01 port_master icw3) in
    let masked = outb mask_all port_slave (outb mask_all port_master icw4) in
    enable_irq inb irq_number_of_slave masked
