-- ===== src/Usb/Registers.antt =====
-- targets/stm32-otgfs/hw/USB.h: the registers of an endpoint. USBInEndpoint and USBOutEndpoint have
-- them at other addresses; where the operations are the same they are given once.
pub mod Words
pub mod Transfer
mod Tests
use lib_stm.Base.{
  ℕ, zero, suc, ◌+◌, ◌-◌, ◌*◌, ◌/◌, ◌%◌, ◌^◌, ◌==◌, ltb, Bool, true, false, not, ◌||◌, bit_and,
  bit_or, u32, if◌then◌else◌, Option, none, some,
}
use lib_stm.Base.Masks.{modmask}

-- The bits of DIEPCTL and DOEPCTL, as the reference manual numbers them.
abbrev pub epena : ℕ
epena = 2147483648

abbrev pub epdis : ℕ
epdis = 1073741824

abbrev pub sd0pid : ℕ
sd0pid = 268435456

abbrev pub snak : ℕ
snak = 134217728

abbrev pub cnak : ℕ
cnak = 67108864

abbrev pub stall_bit : ℕ
stall_bit = 2097152

abbrev pub usbaep : ℕ
usbaep = 32768

-- EPENA, EPDIS, SODDFRM, SD0PID, SNAK, CNAK and STALL.
abbrev pub command_mask : ℕ
command_mask = 4229955584

-- The masks of the fields TXFNUM, EPTYP and MPSIZ.
abbrev pub txfnum : ℕ
txfnum = 62914560

abbrev pub eptyp : ℕ
eptyp = 786432

abbrev pub mpsiz : ℕ
mpsiz = 2047

-- DIEPCTL and DIEPTSIZ, or DOEPCTL and DOEPTSIZ. `ctl` is the word that was written last: its commands
-- were given with it, and no operation reads them but EPENA. That bit is `running`: writing 1 sets it,
-- writing 0 leaves it as it is, and the core clears it when the transfer is over or, asked to by
-- EPDIS, given up, in its own time.
pub record Registers : Type 0 where
  pub ctl : ℕ
  pub tsiz : ℕ
  pub running : Bool

-- The first argument is `Index`.
unfoldable pub packet_size : ℕ → Registers → ℕ
packet_size index r = if index == 0 then 64 / 2 ^ bit_and r.ctl 3 else bit_and r.ctl mpsiz

unfoldable pub max_transfer_size : ℕ → ℕ
max_transfer_size index = if index == 0 then 127 else 524287

unfoldable pub is_enabled : Registers → Bool
is_enabled r = r.running

unfoldable pub is_active : Registers → Bool
is_active r = not (bit_and r.ctl usbaep == 0)

unfoldable pub is_stalled : Registers → Bool
is_stalled r = not (bit_and r.ctl stall_bit == 0)

unfoldable pub control : ℕ → Registers → Registers
control cmd r = record r {
  ctl = modmask r.ctl command_mask cmd;
  running = r.running || not (bit_and cmd epena == 0);
}

unfoldable pub stop_command : Registers → ℕ
stop_command r = if is_enabled r then epdis else 0

unfoldable pub reset : Registers → Registers
reset r = control (bit_or (stop_command r) snak) r

unfoldable pub disable : Registers → Registers
disable r = control (bit_or (stop_command r) cnak) r

unfoldable pub stall : Registers → Registers
stall r = control (bit_or (stop_command r) stall_bit) r

unfoldable pub unstall : Registers → Registers
unstall r = control sd0pid r

unfoldable pub stall_to : Bool → Registers → Registers
stall_to true r = if is_stalled r then r else stall r
stall_to false r = if is_stalled r then unstall r else r

unfoldable pub reinitialize : Registers → Registers
reinitialize r = record r { ctl = bit_or (bit_or epdis snak) sd0pid }

-- `Activate` of each class, with the packet size, the type and, for IN, the number of the FIFO.
unfoldable pub activate_in : ℕ → ℕ → ℕ → Registers → Registers
activate_in max_packet_size type fifo r = record r {
  ctl = modmask r.ctl (bit_or (bit_or (bit_or command_mask eptyp) txfnum) mpsiz) (
      bit_or
        (bit_or
          (bit_or (bit_or (bit_or max_packet_size (u32 (type * 2 ^ 18))) (u32 (fifo * 2 ^ 22)))
            sd0pid)
          usbaep)
        snak);
}

unfoldable pub activate_out : ℕ → ℕ → Registers → Registers
activate_out max_packet_size type r = record r {
  ctl =
      modmask r.ctl (bit_or (bit_or (bit_or command_mask eptyp) mpsiz) usbaep)
        (bit_or (bit_or (bit_or max_packet_size (u32 (type * 2 ^ 18))) usbaep) snak);
}

unfoldable pub deactivate : Registers → Registers
deactivate r = record r { ctl = modmask r.ctl (bit_or command_mask usbaep) 0 }

-- `TransmitPacket` of USB.cpp, and `ReceivePacket`, which has the same words for its registers; none if
-- the assertion fails.
unfoldable pub transmit_packet : ℕ → ℕ → Registers → Option Registers
transmit_packet index size r =
    if size == 0
    then some (control (bit_or epena cnak) (record r { tsiz = 2 ^ 19 }))
    else if ltb (max_transfer_size index) size
    then none
    else some (
        control (bit_or epena cnak)
          (record r { tsiz = bit_or (u32 (((size - 1) / packet_size index r + 1) * 2 ^ 19)) size }))
