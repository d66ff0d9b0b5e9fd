-- ===== src/Gpio/Pins.antt =====
-- targets/stm32l/hw/GPIO.h: pins and ranges of pins, their compact identifications, and the modes.
use lib_stm.Base.{
  ℕ, zero, suc, ◌+◌, ◌-◌, ◌*◌, ◌/◌, ◌%◌, ◌^◌, ◌==◌, Bool, not, bit_or, leb, u32, if◌then◌else◌,
}
use lib_stm.Gpio.{ctz}

-- `GPIOPin`: the address of a port, and the places of the pins in its registers.
pub record Pin : Type 0 where
  pub port : ℕ
  pub mask : ℕ

pub data PortName : Type 0 where
  a b c d e f g h : PortName

-- `__builtin_clz`, for 32 as its first argument: the number of zeros above the highest one.
unfoldable pub clz : ℕ → ℕ → ℕ
clz zero x = 0
clz (suc n) x = if leb (2 ^ n) x then 0 else suc (clz n x)

unfoldable pub index : Pin → ℕ
index p = ctz 32 p.mask

unfoldable pub size : Pin → ℕ
size p = 32 - ctz 32 p.mask - clz 32 p.mask

unfoldable pub pin_IsValid : Pin → Bool
pin_IsValid p = not (p.mask == 0)

-- The arguments are the chip's `GPIOA_BASE` and `GPIOB_BASE`.
module _ (gpioa gpiob : ℕ) where
  -- `GPIO_P`
  unfoldable pub gpio_p : ℕ → ℕ
  gpio_p n = gpioa + (gpiob - gpioa) * n

  unfoldable pub get_index : ℕ → ℕ
  get_index port = (port - gpioa) / (gpiob - gpioa)

  -- The pin of a port, and the pins of a port from one on: `GPIOPort::A` to `GPIOPort::H`.
  unfoldable pub pin_of : PortName → ℕ → Pin
  pin_of a pin = record { port = gpio_p 0; mask = u32 (2 ^ pin) }
  pin_of b pin = record { port = gpio_p 1; mask = u32 (2 ^ pin) }
  pin_of c pin = record { port = gpio_p 2; mask = u32 (2 ^ pin) }
  pin_of d pin = record { port = gpio_p 3; mask = u32 (2 ^ pin) }
  pin_of e pin = record { port = gpio_p 4; mask = u32 (2 ^ pin) }
  pin_of f pin = record { port = gpio_p 5; mask = u32 (2 ^ pin) }
  pin_of g pin = record { port = gpio_p 6; mask = u32 (2 ^ pin) }
  pin_of h pin = record { port = gpio_p 7; mask = u32 (2 ^ pin) }

  unfoldable pub pins_of : PortName → ℕ → ℕ → Pin
  pins_of a pin count = record { port = gpio_p 0; mask = u32 ((2 ^ count - 1) * 2 ^ pin) }
  pins_of b pin count = record { port = gpio_p 1; mask = u32 ((2 ^ count - 1) * 2 ^ pin) }
  pins_of c pin count = record { port = gpio_p 2; mask = u32 ((2 ^ count - 1) * 2 ^ pin) }
  pins_of d pin count = record { port = gpio_p 3; mask = u32 ((2 ^ count - 1) * 2 ^ pin) }
  pins_of e pin count = record { port = gpio_p 4; mask = u32 ((2 ^ count - 1) * 2 ^ pin) }
  pins_of f pin count = record { port = gpio_p 5; mask = u32 ((2 ^ count - 1) * 2 ^ pin) }
  pins_of g pin count = record { port = gpio_p 6; mask = u32 ((2 ^ count - 1) * 2 ^ pin) }
  pins_of h pin count = record { port = gpio_p 7; mask = u32 ((2 ^ count - 1) * 2 ^ pin) }

-- `GPIOPinID`: three fields of four bits, the port counted from 1.
unfoldable pub pin_id : ℕ → ℕ → ℕ → ℕ
pin_id port pin afn = (port + 1) % 16 + pin % 16 * 16 + afn % 16 * 256

unfoldable pub id_IsValid : ℕ → Bool
id_IsValid id = not (id == 0)

-- `Port` of a valid identification; the source gives -1 for an invalid one.
unfoldable pub id_port : ℕ → ℕ
id_port id = id % 16 - 1

unfoldable pub id_pin : ℕ → ℕ
id_pin id = id / 16 % 16

unfoldable pub id_alt : ℕ → ℕ
id_alt id = id / 256 % 16

-- `pA` to `pH`, by the port that they are of.
unfoldable pub port_pin_id : PortName → ℕ → ℕ → ℕ
port_pin_id a = pin_id 0
port_pin_id b = pin_id 1
port_pin_id c = pin_id 2
port_pin_id d = pin_id 3
port_pin_id e = pin_id 4
port_pin_id f = pin_id 5
port_pin_id g = pin_id 6
port_pin_id h = pin_id 7

unfoldable pub get_id : ℕ → ℕ → Pin → ℕ
get_id gpioa gpiob p = pin_id (get_index gpioa gpiob p.port) (index p) 0

-- `Mode`
abbrev pub disabled : ℕ
disabled = 3

abbrev pub analog : ℕ
analog = 3

abbrev pub input : ℕ
input = 0

abbrev pub output : ℕ
output = 1

abbrev pub alternate : ℕ
alternate = 2

abbrev pub open_drain : ℕ
open_drain = 4

abbrev pub speed_low : ℕ
speed_low = 0

abbrev pub speed_medium : ℕ
speed_medium = 16

abbrev pub speed_high : ℕ
speed_high = 32

abbrev pub speed_very_high : ℕ
speed_very_high = 48

abbrev pub pull_up : ℕ
pull_up = 64

abbrev pub pull_down : ℕ
pull_down = 128

abbrev pub flag_set : ℕ
flag_set = 256

-- The modes that `ConfigureDigitalInput`, `ConfigureDigitalOutput` and `ConfigureOpenDrain` ask for.
unfoldable pub input_mode : Bool → ℕ
input_mode pull = bit_or input (if pull then pull_up else pull_down)

unfoldable pub output_mode : Bool → ℕ
output_mode set = bit_or output (if set then flag_set else 0)

unfoldable pub open_drain_mode : Bool → ℕ
open_drain_mode set = bit_or (bit_or output open_drain) (if set then flag_set else 0)
