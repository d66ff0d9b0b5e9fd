-- ===== src/Usb/Configuring/Configured.antt =====
-- targets/stm32-otgfs/usb: the data endpoints after their configuration.
use lib_stm.Usb.Registers.{Registers}
