-- ===== src/Usb/Lifecycle.antt =====
-- targets/stm32-otgfs/usb/Device.cpp: the state of the device and its configuration.
pub mod Run
use lib_stm.Base.{
  length, leb, ℕ, ◌==◌, ==_iff, ◌≡◌, ◌≢◌, ◌⊎◌, refl, sym, ap, ◌∙◌, Bool-cases, Option-cases, inl,
  inr, if◌then◌else◌, Bool, true, false, List, [], ◌∷◌, Option, none, some, arith, ◌||◌,
}
use lib_stm.Usb.Types.{
  State, unattached, default, addressed, configured, to_device, to_endpoint, to_other, standard,
  other_type, Recipient, Request, RequestType, get_status, clear_feature, set_feature, set_address,
  get_descriptor, get_configuration, ControlState, idle, data_rx, processing, data_tx, status_rx,
  status_tx, stall, set_configuration, other_request, SetupPacket, Config, Application, Device,
}
use lib_stm.Usb.Control.{
  answer, control_success, control_stall, control_setup, in_complete, handle_in_control,
  setup_received, data_received, out_complete, handle_out_control,
}
use lib_stm.Usb.Requests.{
  handle_get_status, stall_endpoint, device_feature, endpoint_feature, feature_of, handle_feature,
  address_state, handle_set_address, success_if, handle_get_descriptor, handle_get_configuration,
  find_configuration, finish_configuration, select_configuration, handle_set_configuration,
  handle_standard, answers, dispatch, handle_control,
}
use lib_stm.Usb.Interrupts.{
  Flags, update_suspend, bus_reset, enumerated, irq_branches, task_round, Packet, no_packet, nak,
  rx_complete, setup_complete, invalid, setup_rx, rx, handle_rx, irq_handler,
}

-- One of the configurations that the application gave.
abbrev pub IsOneOf : List Config → Config → Type 0
IsOneOf [] c = ¬ Unit {0}
IsOneOf (x ∷ xs) c = (x ≡ c) ⊎ IsOneOf xs c

-- A configured device has a configuration, and it is one of the application's.
pub record Sound (app : Application) (d : Device) : Type 0 where
  pub chosen : d.state ≡ configured → d.config ≢ none
  pub known : (c : Config) → d.config ≡ some c → IsOneOf app.configs c

pub if-Sound :
    {app : Application} (b : Bool) {x y : Device}
    → Sound app x
    → Sound app y
    → Sound app (if b then x else y)
if-Sound true p q = p
if-Sound false p q = q

-- A change of the other fields.
pub kept :
    (app : Application) (d d' : Device)
    → d'.state ≡ d.state
    → d'.config ≡ d.config
    → Sound app d
    → Sound app d'
kept app d d' a b h = record {
  chosen = λ e n. h.chosen (sym a ∙ e) (sym b ∙ n);
  known = λ c e. h.known c (sym b ∙ e);
}

success-Sound :
    (app : Application) (content : List ℕ) (d : Device)
    → Sound app d
    → Sound app (control_success content d)
unfolding control_success answer
success-Sound app content d h = search (if-Sound, kept app d)

success_if-Sound :
    (app : Application) (o : Option (List ℕ)) (d : Device)
    → Sound app d
    → Sound app (success_if o d)
success_if-Sound app none d h = h
success_if-Sound app (some content) d h = success-Sound app content d h

get_status-Sound :
    (app : Application) (s : SetupPacket) (d : Device)
    → Sound app d
    → Sound app (handle_get_status s d)
unfolding handle_get_status
get_status-Sound app s d h = if-Sound _ (success-Sound app _ _ (kept app d _ refl refl h)) h

stall_endpoint-Sound :
    (app : Application) (inward : Bool) (num : ℕ) (on : Bool) (d : Device)
    → Sound app d
    → Sound app (stall_endpoint inward num on d)
unfolding stall_endpoint
stall_endpoint-Sound app true num on d h = if-Sound _ h (kept app d _ refl refl h)
stall_endpoint-Sound app false num on d h = if-Sound _ h (kept app d _ refl refl h)

device_feature-Sound :
    (app : Application) (s : SetupPacket) (on : Bool) (c : Option Config) (d : Device)
    → Sound app d
    → Sound app (device_feature app s on c d)
unfolding device_feature
device_feature-Sound app s on none d h = h
device_feature-Sound app s on (some c) d h =
    if-Sound _ (success-Sound app _ _ (kept app d _ refl refl h)) h

feature_of-Sound :
    (r : Recipient) (app : Application) (s : SetupPacket) (on : Bool) (d : Device)
    → Sound app d
    → Sound app (feature_of r app s on d)
unfolding feature_of endpoint_feature
feature_of-Sound to_device app s on d h = if-Sound _ (device_feature-Sound app s on d.config d h) h
feature_of-Sound to_endpoint app s on d h =
    if-Sound _ h (if-Sound _ (success-Sound app _ _ (stall_endpoint-Sound app _ _ on d h)) h)
feature_of-Sound to_other app s on d h = h

address_state-configured :
    (state : State) (w_value : ℕ) → address_state state w_value ≡ configured → state ≡ configured
unfolding address_state
address_state-configured unattached w_value h = h
address_state-configured configured w_value h = h
address_state-configured default w_value h = ground (arith, h)
address_state-configured addressed w_value h = ground (arith, h)

set_address-Sound :
    (app : Application) (s : SetupPacket) (d : Device)
    → Sound app d
    → Sound app (handle_set_address s d)
unfolding handle_set_address
set_address-Sound app s d h = if-Sound _ h (
    success-Sound app _ _ (record {
      chosen = λ e. h.chosen (address_state-configured d.state s.w_value e);
      known = h.known;
    }))

get_descriptor-Sound :
    (app : Application) (s : SetupPacket) (d : Device)
    → Sound app d
    → Sound app (handle_get_descriptor app s d)
unfolding handle_get_descriptor
get_descriptor-Sound app s d h = search (if-Sound, success_if-Sound, success-Sound, kept app d)

get_configuration-Sound :
    (app : Application) (s : SetupPacket) (d : Device)
    → Sound app d
    → Sound app (handle_get_configuration s d)
unfolding handle_get_configuration
get_configuration-Sound app s d h = if-Sound _ h (success-Sound app _ _ (kept app d _ refl refl h))

finish-Sound : (app : Application) (d : Device) → Sound app d → Sound app (finish_configuration d)
unfolding finish_configuration
finish-Sound app d h = success-Sound app _ _ (kept app d _ refl refl h)

find_configuration-IsOneOf :
    (configs : List Config) (value : ℕ) (c : Config)
    → find_configuration configs value ≡ some c
    → IsOneOf configs c
unfolding find_configuration
find_configuration-IsOneOf [] value c h = absurd (ground (arith, h))
find_configuration-IsOneOf (x ∷ xs) value c h = elim (Bool-cases (x.value == value)) [
  | inl hit ↦ inl (ground (arith, h))
  | inr miss ↦ inr (find_configuration-IsOneOf xs value c (ground (arith, h)))
]

select-Sound :
    (app : Application) (o : Option Config) (d : Device)
    → ((c : Config) → o ≡ some c → IsOneOf app.configs c)
    → Sound app d
    → Sound app (select_configuration o d)
unfolding select_configuration
select-Sound app none d k h = h
select-Sound app (some c) d k h =
    finish-Sound app _ (record { chosen = λ e. ground arith; known = k })

set_configuration-Sound :
    (app : Application) (s : SetupPacket) (d : Device)
    → Sound app d
    → Sound app (handle_set_configuration app s d)
unfolding handle_set_configuration
set_configuration-Sound app s d h = if-Sound _ h (
    if-Sound _ (select-Sound app _ d (find_configuration-IsOneOf app.configs _) h) (
      if-Sound _
        (finish-Sound app _
          (record { chosen = ground arith; known = λ c e. absurd (ground (arith, e)) }))
        (finish-Sound app d h)))

standard-Sound :
    (r : Request) (app : Application) (s : SetupPacket) (d : Device)
    → Sound app d
    → Sound app (handle_standard r app s d)
unfolding handle_standard handle_feature
standard-Sound get_status app s d h = get_status-Sound app s d h
standard-Sound clear_feature app s d h = if-Sound _ (feature_of-Sound s.recipient app s false d h) h
standard-Sound set_feature app s d h = if-Sound _ (feature_of-Sound s.recipient app s true d h) h
standard-Sound set_address app s d h = set_address-Sound app s d h
standard-Sound get_descriptor app s d h = get_descriptor-Sound app s d h
standard-Sound get_configuration app s d h = get_configuration-Sound app s d h
standard-Sound set_configuration app s d h = set_configuration-Sound app s d h
standard-Sound other_request app s d h = h

answers-Sound :
    (app : Application) (as' : List (List ℕ)) (d : Device) → Sound app d → Sound app (answers as' d)
unfolding answers
answers-Sound app [] d h = h
answers-Sound app (a ∷ as') d h = answers-Sound app as' _ (success-Sound app a d h)

dispatch-Sound :
    (t : RequestType) (app : Application) (s : SetupPacket) (d : Device)
    → Sound app d
    → Sound app (dispatch t app s d)
unfolding dispatch
dispatch-Sound standard app s d h = standard-Sound s.request app s d h
dispatch-Sound other_type app s d h = answers-Sound app _ d h

pub task_round-Sound : (app : Application) (d : Device) → Sound app d → Sound app (task_round app d)
unfolding task_round handle_control control_stall control_setup
task_round-Sound app d h =
    let k = dispatch-Sound d.setup.type app d.setup _ (kept app d _ refl refl h) in
    if-Sound _ (if-Sound _ k (kept app _ _ refl refl k)) h
