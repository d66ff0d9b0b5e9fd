-- ===== src/Usb/Answer.antt =====
-- targets/stm32-otgfs/usb/Device.cpp: every control request is answered or refused.
use lib_stm.Base.{
  ℕ, ◌≡◌, refl, sym, ap, ◌∙◌, ◌⊎◌, inl, inr, if◌then◌else◌, Bool, true, false, List, [], ◌∷◌, ◌++◌,
  suc, take, Option, none, some, arith,
}
use lib_stm.Usb.Types.{
  ControlState, processing, data_tx, status_tx, stall, Direction, dir_out, dir_in, to_device,
  to_endpoint, to_other, standard, other_type, RequestType, Recipient, Request, get_status,
  clear_feature, set_feature, set_address, get_descriptor, get_configuration, set_configuration,
  other_request, SetupPacket, Config, Application, Device, transmit, device_address,
  configure_endpoints, on_configured, stall_out, stall_in, arm_setup,
}
use lib_stm.Usb.Control.{answer, control_success, control_stall, control_setup}
use lib_stm.Usb.Requests.{
  handle_get_status, stall_endpoint, device_feature, endpoint_feature, feature_of, handle_feature,
  handle_set_address, success_if, handle_get_descriptor, handle_get_configuration,
  finish_configuration, select_configuration, handle_set_configuration, handle_standard, answers,
  dispatch, handle_control,
}
use lib_stm.Usb.Sent.{sent, sent-append, append_other, append_halt}

-- The stage that follows a successful request: the status of one with data out, the data of one in.
abbrev pub next_stage : Direction → ControlState
next_stage dir_out = status_tx
next_stage dir_in = data_tx

-- The request `s` is still being processed, with `n` packets sent before, or has its one result, for
-- which one packet was sent.
pub record Handled (s : SetupPacket) (n : ℕ) (d : Device) : Type 0 where
  pub same_setup : d.setup ≡ s
  pub stage :
      ((d.has_result ≡ false) × (d.ctrl_state ≡ processing) × (sent d.actions ≡ n))
      ⊎ ((d.has_result ≡ true) × (d.ctrl_state ≡ next_stage s.direction) × (sent d.actions ≡ suc n))

if-Handled :
    {s : SetupPacket} {n : ℕ} (b : Bool) {x y : Device}
    → Handled s n x
    → Handled s n y
    → Handled s n (if b then x else y)
if-Handled true p q = p
if-Handled false p q = q

pub success-open :
    (content : List ℕ) (d : Device)
    → d.has_result ≡ false
    → d.ctrl_state ≡ processing
    → control_success content d ≡ answer content d
unfolding control_success
success-open content d r c = simp (r, c)

pub success-done :
    (content : List ℕ) (d : Device) → d.has_result ≡ true → control_success content d ≡ d
unfolding control_success
success-done content d r = simp r

answer-Handled :
    (s : SetupPacket) (n : ℕ) (dir : Direction) (content : List ℕ) (d : Device)
    → d.setup.direction ≡ dir
    → s.direction ≡ dir
    → d.setup ≡ s
    → sent d.actions ≡ n
    → Handled s n (answer content d)
unfolding answer
answer-Handled s n dir_out content d e f h c = simp e (record {
  same_setup = h;
  stage = inr (refl, ap next_stage (sym f), omega (arith, sent-append d.actions (transmit []), c));
})
answer-Handled s n dir_in content d e f h c = simp e (record {
  same_setup = h;
  stage = inr (
    refl,
    ap next_stage (sym f),
    omega (
      arith,
      sent-append d.actions (transmit (take d.packet_size (take d.setup.w_length content))),
      c,
    ),
  );
})

success-Handled :
    (s : SetupPacket) (n : ℕ) (content : List ℕ) (d : Device)
    → Handled s n d
    → Handled s n (control_success content d)
success-Handled s n content d h = elim (h.stage) [
  | inl (r, c, k) ↦ rw (success-open content d r c) (
      answer-Handled s n s.direction content d (ap (λ p. p.direction) h.same_setup) refl
        h.same_setup k)
  | inr (r, c, k) ↦ rw (success-done content d r) h
]

-- A change of the fields that `Handled` does not read.
touched :
    (s : SetupPacket) (n : ℕ) (d d' : Device)
    → d'.setup ≡ d.setup
    → d'.has_result ≡ d.has_result
    → d'.ctrl_state ≡ d.ctrl_state
    → sent d'.actions ≡ sent d.actions
    → Handled s n d
    → Handled s n d'
touched s n d d' a b c k h = record { same_setup = a ∙ h.same_setup; stage = rw (b, c, k) h.stage }

get_status-Handled :
    (s : SetupPacket) (n : ℕ) (d : Device) → Handled s n d → Handled s n (handle_get_status s d)
unfolding handle_get_status
get_status-Handled s n d h = search (if-Handled, success-Handled, touched s n d)

stall_endpoint-Handled :
    (s : SetupPacket) (n : ℕ) (inward : Bool) (num : ℕ) (on : Bool) (d : Device)
    → Handled s n d
    → Handled s n (stall_endpoint inward num on d)
unfolding stall_endpoint
stall_endpoint-Handled s n true num on d h = search (if-Handled, touched s n d, append_halt)
stall_endpoint-Handled s n false num on d h = search (if-Handled, touched s n d, append_halt)

device_feature-Handled :
    (app : Application) (s : SetupPacket) (n : ℕ) (on : Bool) (c : Option Config) (d : Device)
    → Handled s n d
    → Handled s n (device_feature app s on c d)
unfolding device_feature
device_feature-Handled app s n on none d h = h
device_feature-Handled app s n on (some c) d h =
    if-Handled _ (success-Handled s n _ _ (touched s n d _ refl refl refl refl h)) h

feature_of-Handled :
    (r : Recipient) (app : Application) (s : SetupPacket) (n : ℕ) (on : Bool) (d : Device)
    → Handled s n d
    → Handled s n (feature_of r app s on d)
unfolding feature_of endpoint_feature
feature_of-Handled to_device app s n on d h =
    if-Handled _ (device_feature-Handled app s n on d.config d h) h
feature_of-Handled to_endpoint app s n on d h =
    if-Handled _ h
      (if-Handled _ (success-Handled s n _ _ (stall_endpoint-Handled s n _ _ on d h)) h)
feature_of-Handled to_other app s n on d h = h

feature-Handled :
    (app : Application) (s : SetupPacket) (n : ℕ) (on : Bool) (d : Device)
    → Handled s n d
    → Handled s n (handle_feature app s on d)
unfolding handle_feature
feature-Handled app s n on d h = if-Handled _ (feature_of-Handled s.recipient app s n on d h) h

set_address-Handled :
    (s : SetupPacket) (n : ℕ) (d : Device) → Handled s n d → Handled s n (handle_set_address s d)
unfolding handle_set_address
set_address-Handled s n d h = if-Handled _ h (
    success-Handled s n _ _
      (touched s n d _ refl refl refl (append_other d.actions (device_address s.w_value) refl) h))

success_if-Handled :
    (s : SetupPacket) (n : ℕ) (o : Option (List ℕ)) (d : Device)
    → Handled s n d
    → Handled s n (success_if o d)
success_if-Handled s n none d h = h
success_if-Handled s n (some content) d h = success-Handled s n content d h

get_descriptor-Handled :
    (app : Application) (s : SetupPacket) (n : ℕ) (d : Device)
    → Handled s n d
    → Handled s n (handle_get_descriptor app s d)
unfolding handle_get_descriptor
get_descriptor-Handled app s n d h =
    search (if-Handled, success-Handled, success_if-Handled, touched s n d)

get_configuration-Handled :
    (s : SetupPacket) (n : ℕ) (d : Device)
    → Handled s n d
    → Handled s n (handle_get_configuration s d)
unfolding handle_get_configuration
get_configuration-Handled s n d h =
    if-Handled _ h (success-Handled s n _ _ (touched s n d _ refl refl refl refl h))

finish-Handled :
    (s : SetupPacket) (n : ℕ) (d : Device) → Handled s n d → Handled s n (finish_configuration d)
unfolding finish_configuration
finish-Handled s n d h = success-Handled s n _ _ (
    touched s n d _ refl refl refl
      (append_other (d.actions ++ configure_endpoints d.config ∷ []) (on_configured d.config) refl
        ∙ append_other d.actions (configure_endpoints d.config) refl)
      h)

select-Handled :
    (s : SetupPacket) (n : ℕ) (c : Option Config) (d : Device)
    → Handled s n d
    → Handled s n (select_configuration c d)
unfolding select_configuration
select-Handled s n none d h = h
select-Handled s n (some c) d h = finish-Handled s n _ (touched s n d _ refl refl refl refl h)

set_configuration-Handled :
    (app : Application) (s : SetupPacket) (n : ℕ) (d : Device)
    → Handled s n d
    → Handled s n (handle_set_configuration app s d)
unfolding handle_set_configuration
set_configuration-Handled app s n d h = if-Handled _ h (
    if-Handled _ (select-Handled s n _ d h) (
      if-Handled _ (finish-Handled s n _ (touched s n d _ refl refl refl refl h))
        (finish-Handled s n d h)))

standard-Handled :
    (r : Request) (app : Application) (s : SetupPacket) (n : ℕ) (d : Device)
    → Handled s n d
    → Handled s n (handle_standard r app s d)
unfolding handle_standard
standard-Handled get_status app s n d h = get_status-Handled s n d h
standard-Handled clear_feature app s n d h = feature-Handled app s n false d h
standard-Handled set_feature app s n d h = feature-Handled app s n true d h
standard-Handled set_address app s n d h = set_address-Handled s n d h
standard-Handled get_descriptor app s n d h = get_descriptor-Handled app s n d h
standard-Handled get_configuration app s n d h = get_configuration-Handled s n d h
standard-Handled set_configuration app s n d h = set_configuration-Handled app s n d h
standard-Handled other_request app s n d h = h

answers-Handled :
    (s : SetupPacket) (n : ℕ) (as' : List (List ℕ)) (d : Device)
    → Handled s n d
    → Handled s n (answers as' d)
unfolding answers
answers-Handled s n [] d h = h
answers-Handled s n (a ∷ as') d h = answers-Handled s n as' _ (success-Handled s n a d h)

dispatch-Handled :
    (t : RequestType) (app : Application) (s : SetupPacket) (n : ℕ) (d : Device)
    → Handled s n d
    → Handled s n (dispatch t app s d)
unfolding dispatch
dispatch-Handled standard app s n d h = standard-Handled s.request app s n d h
dispatch-Handled other_type app s n d h = answers-Handled s n _ d h

-- Whatever the request and whatever the callbacks do, a request that is being processed is either
-- answered, so that the transfer goes on with its next stage, and then just one packet was sent, however
-- often the callbacks ask for an answer; or it is refused by a stall, and no packet was sent.
pub handle_control-answers :
    (app : Application) (d : Device)
    → d.ctrl_state ≡ processing
    → let e = handle_control app d in
      ((e.has_result ≡ true)
        × (e.ctrl_state ≡ next_stage d.setup.direction)
        × (sent e.actions ≡ suc (sent d.actions)))
      ⊎ ((e.has_result ≡ false) × (e.ctrl_state ≡ stall) × (sent e.actions ≡ sent d.actions))
unfolding handle_control control_stall control_setup
handle_control-answers app d c =
    result (dispatch-Handled d.setup.type app d.setup (sent d.actions) d0 start)
  where
    d0 : Device
    d0 = record d { has_result = false }

    start : Handled d.setup (sent d.actions) d0
    start = record { same_setup = refl; stage = inl (refl, c, refl) }

    d1 : Device
    d1 = dispatch d.setup.type app d.setup d0

    result :
        Handled d.setup (sent d.actions) d1
        → let e = handle_control app d in
          ((e.has_result ≡ true)
            × (e.ctrl_state ≡ next_stage d.setup.direction)
            × (sent e.actions ≡ suc (sent d.actions)))
          ⊎ ((e.has_result ≡ false) × (e.ctrl_state ≡ stall) × (sent e.actions ≡ sent d.actions))
    result h = elim (h.stage) [
      | inl (r, e, k) ↦ inr (
        simp r,
        simp r,
        simp r (
            append_other ((d1.actions ++ stall_out ∷ []) ++ stall_in ∷ []) (arm_setup 3) refl
            ∙ append_other (d1.actions ++ stall_out ∷ []) stall_in refl
            ∙ append_other d1.actions stall_out refl
            ∙ k),
      )
      | inr (r, e, k) ↦ inl (simp r, simp r e, simp r k)
    ]
