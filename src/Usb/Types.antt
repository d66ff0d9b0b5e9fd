-- ===== src/Usb/Types.antt =====
-- targets/stm32-otgfs/usb/Device.h: the state of `Device`, and what it is given.
use lib_stm.Base.{ℕ, Bool, List, Option}

pub data State : Type 0 where
  unattached default addressed configured : State

pub data ControlState : Type 0 where
  idle data_rx processing data_tx status_rx status_tx stall : ControlState

pub data Direction : Type 0 where
  dir_out dir_in : Direction

pub data Recipient : Type 0 where
  to_device to_endpoint to_other : Recipient

pub data RequestType : Type 0 where
  standard other_type : RequestType

pub data Request : Type 0 where
  get_status clear_feature set_feature set_address get_descriptor get_configuration : Request
  set_configuration other_request : Request

-- The kinds of descriptor that `HandleControlGetDescriptor` tells apart.
pub data DescriptorType : Type 0 where
  of_device of_config of_string of_other : DescriptorType

-- The members of `SetupPacket` that the device reads; the type is declared by the USB library.
pub record SetupPacket : Type 0 where
  pub type : RequestType
  pub recipient : Recipient
  pub direction : Direction
  pub request : Request
  pub w_value : ℕ
  pub w_index : ℕ
  pub w_length : ℕ
  pub descriptor_type : DescriptorType
  pub descriptor_code : ℕ
  pub descriptor_index : ℕ

-- A configuration descriptor with all that belongs to it.
pub record Config : Type 0 where
  pub value : ℕ
  pub self_powered : Bool
  pub remote_wakeup : Bool
  pub bytes : List ℕ

-- What the application hands to the device: descriptors and callbacks. `handle_control` gives the
-- results for which the callback calls `ControlSuccess`, in order.
pub record Application : Type 0 where
  pub device_descriptor : List ℕ
  pub configs : List Config
  pub string_head : List ℕ
  pub string_tail : List (List ℕ)
  pub feature_remote_wakeup : ℕ
  pub feature_endpoint_halt : ℕ
  pub get_descriptor : SetupPacket → List ℕ
  pub handle_control : SetupPacket → List ℕ → List (List ℕ)

-- What the device does to the peripheral. `halt` sets or clears the stall bit of an endpoint
-- register block by its direction and number.
pub data Action : Type 0 where
  transmit : List ℕ → Action
  receive : ℕ → Action
  arm_setup : ℕ → Action
  stall_out stall_in : Action
  halt : Bool → ℕ → Bool → Action
  device_address : ℕ → Action
  configure_endpoints : Option Config → Action
  on_configured : Option Config → Action
  packet_received : ℕ → List ℕ → Action
  on_reset reset_endpoints allocate_fifo enable_all : Action

-- The packet size of endpoint 0 and the stall bits of the endpoint register blocks are the state of
-- the peripheral, and `actions` is what was done to it. `in_endpoints` and `out_endpoints` are the chip's
-- `USB_IN_ENDPOINTS` and `USB_OUT_ENDPOINTS`.
pub record Device : Type 0 where
  pub state : State
  pub config : Option Config
  pub ctrl_state : ControlState
  pub has_result : Bool
  pub setup : SetupPacket
  pub content : List ℕ
  pub tx_remain : List ℕ
  pub task_control : Bool
  pub suspended : Bool
  pub remote_wakeup_enabled : Bool
  pub full_speed : Bool
  pub in_endpoints : ℕ
  pub out_endpoints : ℕ
  pub packet_size : ℕ
  pub in_stalled : ℕ → Bool
  pub out_stalled : ℕ → Bool
  pub actions : List Action
