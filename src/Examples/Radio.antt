-- ===== src/Examples/Radio.antt =====
-- A small radio environment: a mailbox with room for some events, one answer to every read, and a
-- record of the writes. It stands in for the crates that the runtime task calls.
use jq_ble.Prelude.{
  ℕ, zero, suc, ◌≡◌, refl, Bool, true, false, Option, none, some, List, [], ◌∷◌, ◌++◌, Bytes, Map,
  get, insert, remove, inl, if◌then◌else◌,
}
use jq_ble.Core.Endpoints.{NodeId, DeviceId, BlePeerKey, id_eq, id_order}
use jq_ble.Core.Events.{TransportIngressEvent}
use jq_ble.Link.Host.{
  Host, Platform, PeerIdentityState, hint, resolved, TransportIngressClass, control, payload,
  low_power,
}
use jq_ble.Link.Runtime.State.{Task}
use jq_ble.Link.Runtime.Ingress.Order.{ControlLog}
use jq_ble.Link.Startup.{default_startup}

pub record Radio : Type 0 where
  pub room : ℕ
  pub mailbox : List (TransportIngressEvent (Unit {0}))
  pub answer : Option Bytes
  pub writes : List (DeviceId × Bytes)

abbrev pub Directory : Type 0
Directory = Map BlePeerKey PeerIdentityState

abbrev pub accept_into : ℕ → TransportIngressEvent (Unit {0}) → Radio → Bool × Radio
accept_into zero e w = (false, w)
accept_into (suc n) e w = (true, record w { room = n; mailbox = w.mailbox ++ e ∷ [] })

abbrev pub emit_into :
    TransportIngressClass → TransportIngressEvent (Unit {0}) → Radio → Bool × Radio
emit_into control e w = accept_into w.room e w
emit_into payload e w = (true, w)

abbrev pub radio_host : Host Radio Directory (Unit {0}) (Unit {0})
radio_host = record {
  platform = Platform.linux;
  central_is_powered = λ w. (some true, w);
  start_scan = λ _ _ w. (none, w);
  connect = λ _ w. w;
  disconnect = λ _ w. w;
  refresh = λ _ w. w;
  read_characteristic = λ _ _ w. (w.answer, w);
  write_characteristic = λ d _ b w. record w { writes = (d, b) ∷ w.writes };
  subscribe_characteristic = λ _ _ w. w;
  open_l2cap_channel = λ _ _ w. (none, w);
  peripheral_is_powered = λ w. (some true, w);
  l2cap_listener = λ w. (inl 193, w);
  add_service = λ _ w. (none, w);
  start_advertising = λ _ _ w. (none, w);
  notify_characteristic = λ d _ b w. record w { writes = (d, b) ∷ w.writes };
  write_all = λ _ _ w. (true, w);
  flush = λ _ w. (true, w);
  read_exact = λ _ _ w. (w.answer, w);
  spawn_tasks = λ _ _ w. w;
  outbound_send = λ _ _ w. (true, w);
  emit = emit_into;
  identity_state = λ m k. get k m;
  upsert_hint = λ m k f. insert k (hint f) m;
  resolve = λ m k n. insert k (resolved n) m;
  remove_peer = λ m k. (get k m, remove k m);
  is_claimed = λ _ _. false;
  try_claim = λ _ w. (true, w);
  release_claim = λ _ w. w;
  build_link = λ e _ s. record { endpoint = e; runtime_state = s; detail = tt };
}

abbrev pub mailbox_of : Radio → List (TransportIngressEvent (Unit {0}))
mailbox_of w = w.mailbox

pub taken-accept :
    (n : ℕ) (e : TransportIngressEvent (Unit {0})) (w : Radio)
    → mailbox_of (accept_into n e w).1
      ≡ (if (accept_into n e w).0 then mailbox_of w ++ e ∷ [] else mailbox_of w)
taken-accept zero e w = refl
taken-accept (suc n) e w = refl

abbrev pub radio_log : ControlLog radio_host
radio_log = record { taken = mailbox_of; taken-emit = λ e w. taken-accept w.room e w }

abbrev pub ones : ℕ → Bytes
ones zero = []
ones (suc n) = 1 ∷ ones n

abbrev pub node_one : NodeId
node_one = record { bytes = ones 32 }

abbrev pub device_a : DeviceId
device_a = record { bytes = 65 ∷ [] }

abbrev pub device_b : DeviceId
device_b = record { bytes = 66 ∷ [] }

abbrev pub key_a : BlePeerKey
key_a = record { bytes = 65 ∷ [] }

-- A task that has just been created, with a mailbox of the given room.
abbrev pub new_task : ℕ → Task Radio Directory (Unit {0})
new_task room = record {
  world = record { room = room; mailbox = []; answer = some (ones 32); writes = [] };
  is_listening = false;
  l2cap_channels = [];
  next_channel_id = 1;
  peers = [];
  sessions = [];
  local_node_id = record { bytes = ones 32 };
  local_psm = none;
  config = record {
    queue = record { ingress_capacity = 8; command_capacity = 8 };
    scan = record { scan_service_uuids = []; scan_mode = low_power };
  };
  restored_state = record { central_devices = []; peripheral_service_uuids = [] };
  startup = default_startup;
  deferred_control_ingress = [];
}

abbrev pub Run : Type 0
Run = Task Radio Directory (Unit {0})
