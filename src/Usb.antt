-- ===== src/Usb.antt =====
-- targets/stm32-otgfs/usb: the USB device, its control endpoint and its bus interrupt.
pub mod Types
pub mod Control
pub mod Requests
pub mod Interrupts
pub mod Dispatch
pub mod Sent
pub mod Answer
pub mod Transfer
pub mod Faults
pub mod Lifecycle
pub mod Fifo
pub mod Endpoints
pub mod Registers
pub mod Configuring
mod Tests
