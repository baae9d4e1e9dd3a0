-- ===== src/Core/Endpoints.antt =====
-- Identifiers, endpoints and transports, with their equality tests.
use jq_ble.Prelude.{
  ℕ, ◌≡◌, ap, ◌↔◌, Bool, true, false, ◌&&◌, arith, Eq, ◌==◌, Order, nat_eq, list_eq, list_beq_iff,
  nat_order, list_order, Bytes,
}

-- What an identifier names; each kind is a newtype of its own in the source.
pub data Space : Type 0 where
  node device peer group route : Space

-- `NodeId([u8; 32])`, `DeviceId` and `BlePeerKey` (the UTF-8 bytes of their `String`),
-- `MulticastGroupId([u8; 16])`, `RouteId([u8; 16])`.
pub record Identifier (s : Space) : Type 0 where
  pub bytes : Bytes

abbrev pub NodeId : Type 0
NodeId = Identifier Space.node

abbrev pub DeviceId : Type 0
DeviceId = Identifier Space.device

abbrev pub BlePeerKey : Type 0
BlePeerKey = Identifier Space.peer

abbrev pub MulticastGroupId : Type 0
MulticastGroupId = Identifier Space.group

abbrev pub RouteId : Type 0
RouteId = Identifier Space.route

-- Derived `Eq` and `Ord`.
module _ {s : Space} where
  abbrev pub id_beq : Identifier s → Identifier s → Bool
  id_beq a b = a.bytes == b.bytes

  pub id_beq_iff : (a b : Identifier s) → (id_beq a b ≡ true) ↔ (a ≡ b)
  id_beq_iff a b = (
    λ h.
        ap (λ (x : Bytes). let i : Identifier s = record { bytes = x } in i)
          ((list_beq_iff a.bytes b.bytes).0 h),
    λ h. (list_beq_iff a.bytes b.bytes).1 (ap (λ (i : Identifier s). i.bytes) h),
  )

  instance abbrev pub id_eq : Eq (Identifier s)
  id_eq = record { beq = id_beq; decides = id_beq_iff }

  abbrev pub id_less : Identifier s → Identifier s → Bool
  id_less a b = list_order.less a.bytes b.bytes

  pub id_less_total : (a b : Identifier s) → id_less a b ≡ false → id_less b a ≡ false → a ≡ b
  id_less_total a b h k =
      ap (λ (x : Bytes). let i : Identifier s = record { bytes = x } in i)
        (list_order.less_total a.bytes b.bytes h k)

  instance abbrev pub id_order : Order (Identifier s)
  id_order = record {
    less = id_less;
    less_irrefl = λ a. list_order.less_irrefl a.bytes;
    less_trans = λ a b c. list_order.less_trans a.bytes b.bytes c.bytes;
    less_total = id_less_total;
  }

pub data TransportKind : Type 0 where
  ble_gatt ble_l2cap : TransportKind
  other : ℕ → TransportKind

abbrev pub transport_kind_beq : TransportKind → TransportKind → Bool
transport_kind_beq TransportKind.ble_gatt TransportKind.ble_gatt = true
transport_kind_beq TransportKind.ble_l2cap TransportKind.ble_l2cap = true
transport_kind_beq (TransportKind.other m) (TransportKind.other n) = m == n
transport_kind_beq _ _ = false

pub transport_kind_beq_iff : (a b : TransportKind) → (transport_kind_beq a b ≡ true) ↔ (a ≡ b)
transport_kind_beq_iff TransportKind.ble_gatt b = ground arith
transport_kind_beq_iff TransportKind.ble_l2cap b = ground arith
transport_kind_beq_iff (TransportKind.other m) b = ground arith

instance abbrev pub transport_kind_eq : Eq TransportKind
transport_kind_eq = record { beq = transport_kind_beq; decides = transport_kind_beq_iff }

pub data EndpointLocator : Type 0 where
  scoped_bytes : Bytes → Bytes → EndpointLocator
  other : ℕ → EndpointLocator

abbrev pub locator_beq : EndpointLocator → EndpointLocator → Bool
locator_beq (EndpointLocator.scoped_bytes s b) (EndpointLocator.scoped_bytes t c) = s == t && b == c
locator_beq (EndpointLocator.other m) (EndpointLocator.other n) = m == n
locator_beq _ _ = false

pub locator_beq_iff : (a b : EndpointLocator) → (locator_beq a b ≡ true) ↔ (a ≡ b)
locator_beq_iff (EndpointLocator.scoped_bytes s b) (EndpointLocator.scoped_bytes t c) =
    ground (arith, list_beq_iff s t, list_beq_iff b c)
locator_beq_iff (EndpointLocator.scoped_bytes s b) (EndpointLocator.other n) = ground arith
locator_beq_iff (EndpointLocator.other m) b = ground arith

instance abbrev pub locator_eq : Eq EndpointLocator
locator_eq = record { beq = locator_beq; decides = locator_beq_iff }

pub record LinkEndpoint : Type 0 where
  pub transport_kind : TransportKind
  pub locator : EndpointLocator
  pub mtu_bytes : ℕ

abbrev pub endpoint_beq : LinkEndpoint → LinkEndpoint → Bool
endpoint_beq a b =
    a.transport_kind == b.transport_kind && a.locator == b.locator && a.mtu_bytes == b.mtu_bytes

pub endpoint_beq_iff : (a b : LinkEndpoint) → (endpoint_beq a b ≡ true) ↔ (a ≡ b)
endpoint_beq_iff a b = ground (
  arith,
  transport_kind_beq_iff a.transport_kind b.transport_kind,
  locator_beq_iff a.locator b.locator,
)

instance abbrev pub endpoint_eq : Eq LinkEndpoint
endpoint_eq = record { beq = endpoint_beq; decides = endpoint_beq_iff }
