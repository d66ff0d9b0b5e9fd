-- ===== src/Usb/Requests.antt =====
-- targets/stm32-otgfs/usb/Device.cpp: `HandleControl` and the standard requests.
use lib_stm.Base.{
  ℕ, zero, suc, ◌+◌, ◌/◌, ◌%◌, ◌==◌, ltb, if◌then◌else◌, Bool, true, false, not, ◌&&◌, ◌||◌, List,
  [], ◌∷◌, ◌++◌, Option, none, some, length, take, drop, get_elem?, u8,
}
use lib_stm.Usb.Types.{
  State, unattached, default, addressed, configured, Recipient, to_device, to_endpoint, to_other,
  RequestType, standard, other_type, Request, get_status, clear_feature, set_feature, set_address,
  get_descriptor, get_configuration, set_configuration, other_request, DescriptorType, of_device,
  of_config, of_string, of_other, SetupPacket, Config, Application, halt, device_address,
  configure_endpoints, on_configured, Device,
}
use lib_stm.Usb.Control.{act, is_out, control_stall, control_success}

abbrev pub is_device : Recipient → Bool
is_device to_device = true
is_device _ = false

abbrev pub is_configured : State → Bool
is_configured configured = true
is_configured _ = false

abbrev pub bit : Bool → ℕ → ℕ
bit true n = n
bit false n = 0

unfoldable pub status_of : Option Config → ℕ
status_of none = 0
status_of (some c) = bit c.self_powered 1 + bit c.remote_wakeup 2

-- `ctrl.data16[0]`, little-endian, and the packet of these two bytes.
unfoldable pub handle_get_status : SetupPacket → Device → Device
handle_get_status setup d =
    if not (is_out setup.direction)
      && setup.w_value == 0
      && setup.w_length == 2
      && is_device setup.recipient
      && setup.w_index == 0
    then (let status = status_of d.config in
        let bytes = u8 status ∷ u8 (status / 256) ∷ [] in
        control_success bytes (record d { content = bytes ++ drop 2 d.content }))
    else d

abbrev pub same : Bool → Bool → Bool
same true b = b
same false b = not b

abbrev pub update : (ℕ → Bool) → ℕ → Bool → ℕ → Bool
update f n b m = if n == m then b else f m

-- `Stall(bool)` of an endpoint: the register is written only if the bit is to change.
unfoldable pub stall_endpoint : Bool → ℕ → Bool → Device → Device
stall_endpoint true num on d =
    if same on (d.in_stalled num)
    then d
    else act (halt true num on) (record d { in_stalled = update d.in_stalled num on })
stall_endpoint false num on d =
    if same on (d.out_stalled num)
    then d
    else act (halt false num on) (record d { out_stalled = update d.out_stalled num on })

unfoldable pub device_feature : Application → SetupPacket → Bool → Option Config → Device → Device
device_feature app setup on none d = d
device_feature app setup on (some c) d =
    if is_configured d.state && setup.w_value == app.feature_remote_wakeup && c.remote_wakeup
    then control_success [] (record d { remote_wakeup_enabled = on })
    else d

unfoldable pub endpoint_feature : Application → SetupPacket → Bool → Device → Device
endpoint_feature app setup on d =
    let num = setup.w_index % 128 in
    let inward = not (setup.w_index / 128 % 2 == 0) in
    if num == 0 || ltb (if inward then d.in_endpoints else d.out_endpoints) num
    then d
    else if setup.w_value == app.feature_endpoint_halt
    then control_success [] (stall_endpoint inward num on d)
    else d

unfoldable pub feature_of : Recipient → Application → SetupPacket → Bool → Device → Device
feature_of to_device app setup on d =
    if setup.w_index == 0 then device_feature app setup on d.config d else d
feature_of to_endpoint app setup on d = endpoint_feature app setup on d
feature_of to_other app setup on d = d

unfoldable pub handle_feature : Application → SetupPacket → Bool → Device → Device
handle_feature app setup on d =
    if setup.w_length == 0 then feature_of setup.recipient app setup on d else d

unfoldable pub address_state : State → ℕ → State
address_state default w_value = if w_value == 0 then default else addressed
address_state addressed w_value = if w_value == 0 then default else addressed
address_state unattached w_value = unattached
address_state configured w_value = configured

unfoldable pub handle_set_address : SetupPacket → Device → Device
handle_set_address setup d =
    if not (is_device setup.recipient)
      || not (is_out setup.direction)
      || not (setup.w_index == 0)
      || not (setup.w_length == 0)
      || ltb 127 setup.w_value
    then d
    else control_success [] (
        act (device_address setup.w_value)
          (record d { state = address_state d.state setup.w_value }))

-- The walk over the string descriptors; the end of the list is the terminator.
unfoldable pub string_at : List ℕ → List (List ℕ) → ℕ → Option (List ℕ)
string_at desc rest zero = some desc
string_at desc [] (suc n) = none
string_at desc (next ∷ rest) (suc n) = string_at next rest n

-- What the `switch` finds; `none` is its early return.
unfoldable pub descriptor_of : DescriptorType → Application → ℕ → Option (List ℕ)
descriptor_of of_device app index = if index == 0 then some app.device_descriptor else none
descriptor_of of_config app index = elim (get_elem? app.configs index) [
  | some c ↦ some c.bytes
  | none ↦ none
]
descriptor_of of_string app index = string_at app.string_head app.string_tail index
descriptor_of of_other app index = some []

abbrev pub success_if : Option (List ℕ) → Device → Device
success_if none d = d
success_if (some content) d = control_success content d

unfoldable pub handle_get_descriptor : Application → SetupPacket → Device → Device
handle_get_descriptor app setup d =
    let own = app.get_descriptor setup in
    let framed = u8 (length own + 2) ∷ u8 setup.descriptor_code ∷ own in
    if not (is_device setup.recipient) || is_out setup.direction
    then d
    else if length own == 0
    then success_if (descriptor_of setup.descriptor_type app setup.descriptor_index) d
    else control_success framed (record d { content = framed ++ drop (length own + 2) d.content })

unfoldable pub value_of : Option Config → ℕ
value_of none = 0
value_of (some c) = c.value

unfoldable pub handle_get_configuration : SetupPacket → Device → Device
handle_get_configuration setup d =
    if not (is_device setup.recipient)
      || is_out setup.direction
      || not (setup.w_index == 0)
      || not (setup.w_value == 0)
      || not (setup.w_length == 1)
    then d
    else (let value = u8 (value_of d.config) in
        control_success (value ∷ []) (record d { content = value ∷ drop 1 d.content }))

-- The parameter is a `uint8_t`.
unfoldable pub find_configuration : List Config → ℕ → Option Config
find_configuration [] value = none
find_configuration (c ∷ cs) value = if c.value == value then some c else find_configuration cs value

unfoldable pub finish_configuration : Device → Device
finish_configuration d =
    control_success [] (act (on_configured d.config) (act (configure_endpoints d.config) d))

unfoldable pub select_configuration : Option Config → Device → Device
select_configuration none d = d
select_configuration (some c) d =
    finish_configuration
      (record d { config = some c; remote_wakeup_enabled = c.remote_wakeup; state = configured })

abbrev pub is_addressed : State → Bool
is_addressed addressed = true
is_addressed configured = true
is_addressed _ = false

unfoldable pub handle_set_configuration : Application → SetupPacket → Device → Device
handle_set_configuration app setup d =
    if not (is_device setup.recipient)
      || not (setup.w_index == 0)
      || not (setup.w_length == 0)
      || ltb 255 setup.w_value
    then d
    else if not (setup.w_value == 0) && is_addressed d.state
    then select_configuration (find_configuration app.configs (u8 setup.w_value)) d
    else if is_configured d.state
    then finish_configuration (record d { config = none; state = addressed })
    else finish_configuration d

unfoldable pub handle_standard : Request → Application → SetupPacket → Device → Device
handle_standard get_status app setup d = handle_get_status setup d
handle_standard clear_feature app setup d = handle_feature app setup false d
handle_standard set_feature app setup d = handle_feature app setup true d
handle_standard set_address app setup d = handle_set_address setup d
handle_standard get_descriptor app setup d = handle_get_descriptor app setup d
handle_standard get_configuration app setup d = handle_get_configuration setup d
handle_standard set_configuration app setup d = handle_set_configuration app setup d
handle_standard other_request app setup d = d

-- The calls of `ControlSuccess` that a callback makes.
unfoldable pub answers : List (List ℕ) → Device → Device
answers [] d = d
answers (a ∷ as') d = answers as' (control_success a d)

unfoldable pub dispatch : RequestType → Application → SetupPacket → Device → Device
dispatch standard app setup d = handle_standard setup.request app setup d
dispatch other_type app setup d =
    answers
      (app.handle_control setup
        (if is_out setup.direction then take setup.w_length d.content else []))
      d

unfoldable pub handle_control : Application → Device → Device
handle_control app d =
    let d' = dispatch d.setup.type app d.setup (record d { has_result = false }) in
    if d'.has_result then d' else control_stall d'
