-- ===== src/Link/Gatt/Hint.antt =====
-- What a scanner reads from an advertisement.
use jq_ble.Prelude.{
  ℕ, ◌+◌, ◌*◌, ◌^◌, ◌≡◌, refl, ap, ◌∙◌, ◌↔◌, true, none, some, List, [], ◌∷◌, ◌++◌, arith, Bytes,
  IsArray, IsByte, All, All-append, All-take, length-take, take_append, from_be_bytes-append,
  from_be_bytes-lt, length, take, length-append, from_be_bytes, to_be_bytes,
  to_be_bytes-from_be_bytes, list_beq_iff, nat_eq,
}
use jq_ble.Prelude.Bits.{bit_or_prefix}
use jq_ble.Core.Endpoints.{NodeId}
use jq_ble.Link.Gatt.{
  Uuid, hint_namespace, padding, node_id_prefix, discovery_service_uuid, hint_of_uuid,
  parse_discovery_hint, hint_matches_node_id,
}

abbrev tail_of : NodeId → Bytes
tail_of n = node_id_prefix n ++ padding

tail_size : (n : NodeId) → IsArray 32 n.bytes → length (tail_of n) ≡ 12
unfolding node_id_prefix
tail_size n h =
    length-append (take 6 n.bytes) padding
    ∙ ap (λ (t : ℕ). t + 6) (length-take 6 n.bytes (omega (arith, h.size)))

tail_bytes : (n : NodeId) → IsArray 32 n.bytes → All IsByte (tail_of n)
unfolding node_id_prefix
tail_bytes n h =
    All-append IsByte (take 6 n.bytes) padding (All-take IsByte 6 n.bytes h.bounded) (omega arith)

prefix_of_tail : (n : NodeId) → IsArray 32 n.bytes → take 6 (tail_of n) ≡ node_id_prefix n
unfolding node_id_prefix
prefix_of_tail n h =
    let six = length-take 6 n.bytes (omega (arith, h.size)) in
    rw six at (take_append (take 6 n.bytes) padding)

-- The `|` of the namespace prefix leaves the encoded word as it is.
discovery_service_uuid_lem :
    (n : NodeId)
    → IsArray 32 n.bytes
    → discovery_service_uuid n ≡ from_be_bytes (hint_namespace ++ tail_of n)
unfolding discovery_service_uuid from_be_bytes
discovery_service_uuid_lem n h =
    let size = tail_size n h in
    let below = from_be_bytes-lt (tail_of n) (tail_bytes n h) in
    let split : from_be_bytes (hint_namespace ++ tail_of n)
        ≡ 0x6a617200 * 2 ^ 96 + from_be_bytes (tail_of n) =
      from_be_bytes-append hint_namespace (tail_of n) ∙ rw size in
    rw split (bit_or_prefix 96 0x6a617200 (from_be_bytes (tail_of n)) refl (rw size at below))

uuid_bytes :
    (n : NodeId)
    → IsArray 32 n.bytes
    → to_be_bytes 16 (discovery_service_uuid n) ≡ hint_namespace ++ tail_of n
uuid_bytes n h =
    let whole : All IsByte (hint_namespace ++ tail_of n) =
      All-append IsByte hint_namespace (tail_of n) (omega arith) (tail_bytes n h) in
    let size : length (hint_namespace ++ tail_of n) ≡ 16 = omega (arith, tail_size n h) in
    rw (discovery_service_uuid_lem n h)
      (rw size at (to_be_bytes-from_be_bytes (hint_namespace ++ tail_of n) whole))

hint_of_uuid-discovery_service_uuid :
    (n : NodeId)
    → IsArray 32 n.bytes
    → hint_of_uuid (discovery_service_uuid n) ≡ some (node_id_prefix n)
unfolding hint_of_uuid
hint_of_uuid-discovery_service_uuid n h = rw (uuid_bytes n h) (ap some (prefix_of_tail n h))

-- A scanner recovers the first six bytes of the identifier from any advertisement that lists its
-- discovery UUID, if no service listed before it carries a hint; and the recovered hint is accepted
-- for exactly the identifiers that begin with those six bytes.
pub parse_discovery_hint-discovery_service_uuid :
    (n : NodeId) (before after : List Uuid)
    → IsArray 32 n.bytes
    → All (λ u. hint_of_uuid u ≡ none) before
    → (parse_discovery_hint (before ++ discovery_service_uuid n ∷ after) ≡ some (node_id_prefix n))
      × ((m : NodeId)
          → (hint_matches_node_id (node_id_prefix n) m ≡ true) ↔ (take 6 n.bytes ≡ take 6 m.bytes))
unfolding parse_discovery_hint hint_matches_node_id node_id_prefix
parse_discovery_hint-discovery_service_uuid n [] after h skipped = (
  rw (hint_of_uuid-discovery_service_uuid n h),
  λ m. list_beq_iff (take 6 n.bytes) (take 6 m.bytes),
)
parse_discovery_hint-discovery_service_uuid n (u ∷ before) after h skipped =
    let later = parse_discovery_hint-discovery_service_uuid n before after h skipped.1 in
    (rw (skipped.0) later.0, later.1)
