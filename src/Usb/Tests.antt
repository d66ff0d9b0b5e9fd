-- ===== src/Usb/Tests.antt =====
-- targets/stm32-otgfs/usb/Device.cpp: requests to a device that has just been given its address.
use lib_stm.Base.{
  suc, some, ℕ, List, length, ◌+◌, ◌/◌, min, ◌≡◌, refl, ◌⊎◌, true, false, [], ◌∷◌, ◌++◌, none, take,
  replicate, arith,
}
use lib_stm.Usb.Types.{
  addressed, ControlState, data_rx, processing, stall, dir_out, dir_in, to_device, standard,
  other_type, get_descriptor, other_request, of_device, of_other, SetupPacket, Application,
  stall_out, stall_in, arm_setup, transmit, status_tx, Device,
}
use lib_stm.Usb.Control.{
  answer, control_success, handle_out_control, in_complete, handle_in_control,
}
use lib_stm.Usb.Requests.{
  handle_get_descriptor, descriptor_of, handle_standard, dispatch, handle_control,
}
use lib_stm.Usb.Interrupts.{task_round}
use lib_stm.Usb.Sent.{sent as answers_sent}
use lib_stm.Usb.Answer.{next_stage, handle_control-answers}
use lib_stm.Usb.Transfer.{Delivered, completions, sent, control_success-Delivered}
use lib_stm.Usb.Endpoints.{
  InEndpoint, OutEndpoint, words, send_packet, fifo_empty, handle_in_interrupts, read_words,
  filled_buffer, reads, packet_received, receive_result,
}
use lib_stm.Usb.Endpoints.Send.{Interrupt, interrupts}
use lib_stm.Usb.Endpoints.Receive.{packet_received_lem}
use lib_stm.Usb.Lifecycle.Run.{Event, interrupt, round, run, SoundIf, run-SoundIf}
use lib_stm.Usb.Interrupts.{Flags, setup_rx}
use lib_stm.Usb.Faults.{task_round-wrong_length}

-- GET_DESCRIPTOR of the device descriptor.
abbrev pub get_device : SetupPacket
get_device = record {
  type = standard;
  recipient = to_device;
  direction = dir_in;
  request = get_descriptor;
  w_value = 256;
  w_index = 0;
  w_length = 100;
  descriptor_type = of_device;
  descriptor_code = 1;
  descriptor_index = 0;
}

-- A request of the application with four bytes of data.
abbrev put_data : SetupPacket
put_data = record {
  type = other_type;
  recipient = to_device;
  direction = dir_out;
  request = other_request;
  w_value = 0;
  w_index = 0;
  w_length = 4;
  descriptor_type = of_other;
  descriptor_code = 0;
  descriptor_index = 0;
}

-- An application that accepts every request of its own.
abbrev app : Application
app = record {
  device_descriptor = replicate 18 1;
  configs = [];
  string_head = 4 ∷ 3 ∷ 9 ∷ 4 ∷ [];
  string_tail = [];
  feature_remote_wakeup = 1;
  feature_endpoint_halt = 0;
  get_descriptor = λ s. [];
  handle_control = λ s content. [] ∷ [];
}

abbrev pub device : SetupPacket → ControlState → Device
device setup ctrl_state = record {
  state = addressed;
  config = none;
  ctrl_state = ctrl_state;
  has_result = false;
  setup = setup;
  content = replicate 64 0;
  tx_remain = [];
  task_control = false;
  suspended = false;
  remote_wakeup_enabled = false;
  full_speed = true;
  in_endpoints = 6;
  out_endpoints = 6;
  packet_size = 8;
  in_stalled = λ n. false;
  out_stalled = λ n. false;
  actions = [];
}

abbrev asked : Device
asked = device get_device processing

handle_control-answers_example :
    let e = handle_control app asked in
    ((e.has_result ≡ true)
      × (e.ctrl_state ≡ next_stage asked.setup.direction)
      × (answers_sent e.actions ≡ suc (answers_sent asked.actions)))
    ⊎ ((e.has_result ≡ false)
        × (e.ctrl_state ≡ stall)
        × (answers_sent e.actions ≡ answers_sent asked.actions))
handle_control-answers_example = handle_control-answers app asked refl

control_success-Delivered_example :
    Delivered asked
      (completions 19 (control_success (replicate 18 1) asked))
      (take 100 (replicate 18 1))
control_success-Delivered_example =
    control_success-Delivered (replicate 18 1) 19 asked refl refl refl (omega arith) tt
      (omega arith)

-- The descriptor of 18 bytes goes out in packets of 8, 8 and 2 bytes.
descriptor_test : sent (completions 4 (handle_control app asked)).actions ≡ replicate 18 1
unfolding sent completions handle_in_control in_complete handle_control dispatch handle_standard
    handle_get_descriptor descriptor_of control_success answer
descriptor_test = refl

abbrev receiving : Device
receiving = device put_data data_rx

task_round-wrong_length_example :
    let e = task_round app (handle_out_control false true put_data 3 receiving) in
    (e.ctrl_state ≡ status_tx)
    × (e.actions ≡ [] ++ stall_out ∷ stall_in ∷ arm_setup 3 ∷ transmit [] ∷ [])
task_round-wrong_length_example =
    task_round-wrong_length app put_data 3 receiving [] refl refl refl (λ h. omega (arith, h))
      (λ s content. refl)

-- Memory and FIFO: word `i` is 0x04030201 + i.
abbrev pub counting : ℕ → ℕ
counting i = 67305985 + i

abbrev pub idle_in : InEndpoint
idle_in = record {
  tx_ptr = 0;
  tx_words = 0;
  transfer_complete = true;
  endpoint_disabled = true;
  empty_enabled = false;
  requested = [];
  pushed = [];
}

abbrev two_interrupts : List Interrupt
two_interrupts =
    record { txfe = true; xfrc = false; epdisd = false; room = 2 }
    ∷ record { txfe = true; xfrc = true; epdisd = false; room = 16 }
    ∷ []

pushed_test :
    (interrupts counting two_interrupts (send_packet 64 5 10 idle_in)).pushed
    ≡ 67305990 ∷ 67305991 ∷ 67305992 ∷ []
unfolding interrupts send_packet handle_in_interrupts fifo_empty words
pushed_test = refl

abbrev small_out : OutEndpoint
small_out = record {
  packet_buffer = replicate 6 0;
  transfer_complete = false;
  endpoint_disabled = false;
  fifo_read = 3;
}

packet_received_lem_example :
    let f = packet_received counting 9 small_out in
    (f.fifo_read ≡ 3 + (9 + 3) / 4)
    × (f.packet_buffer ≡ take (min 9 6) (read_words counting 3 ((9 + 3) / 4)))
    × (length f.packet_buffer ≡ min 9 6)
packet_received_lem_example = packet_received_lem counting 9 small_out

small_test : (packet_received counting 9 small_out).packet_buffer ≡ 4 ∷ 2 ∷ 3 ∷ 4 ∷ 5 ∷ 2 ∷ []
unfolding packet_received filled_buffer read_words reads
small_test = refl

received_test : receive_result (packet_received counting 9 small_out) ≡ 6
unfolding receive_result packet_received filled_buffer read_words reads
received_test = refl

-- A setup packet arrives, and the task answers it.
abbrev setup_flags : Flags
setup_flags = record {
  usbrst = false;
  wkuint = false;
  usbsusp = false;
  enumdne = false;
  iepint = false;
  oepint = true;
  speed_full = true;
  in_zero = false;
  in_xfrc = false;
  out_zero = true;
  out_stup = true;
  out_xfrc = false;
  out_packet = get_device;
  out_received = 0;
}

abbrev request_events : List Event
request_events = interrupt (some (setup_rx (0 ∷ []))) setup_flags ∷ round ∷ []

run-SoundIf_example : SoundIf app (run app request_events (some asked))
run-SoundIf_example =
    run-SoundIf app request_events (some asked)
      (record { chosen = λ e. ground (arith, e); known = λ c e. absurd (ground (arith, e)) })
