-- ===== src/Client/Framing.antt =====
-- crates/jq-client/src/framing.rs.
use jq_ble.Prelude.{
  ◌≡◌, ◌↔◌, refl, sym, ap, ◌∙◌, Option, none, some, ◌++◌, Bytes, ◌==◌, nat_eq, list_eq,
  list_beq_iff, if◌then◌else◌, take, drop, take-append-drop, codes, Bool-cases, inl, inr,
}

abbrev pub client_payload_magic : Bytes
client_payload_magic = codes "JQCLIENT"

unfoldable pub encode_client_payload : Bytes → Bytes
encode_client_payload payload = client_payload_magic ++ payload

unfoldable pub decode_client_payload : Bytes → Option Bytes
decode_client_payload payload =
    if take 8 payload == client_payload_magic then some (drop 8 payload) else none

-- A payload decodes exactly if it is a framed one, and then to what was framed: what one client
-- encodes the other recovers, whatever the bytes, and nothing else is taken for client traffic.
pub decode_client_payload-encode_client_payload :
    (bytes payload : Bytes)
    → (decode_client_payload bytes ≡ some payload) ↔ (bytes ≡ encode_client_payload payload)
unfolding decode_client_payload encode_client_payload
decode_client_payload-encode_client_payload bytes payload = (
  λ e. elim (Bool-cases (take 8 bytes == client_payload_magic)) [
    | inl framed ↦
        let rest : drop 8 bytes ≡ payload = cc (rw framed at e) in
        sym (take-append-drop 8 bytes)
        ∙ ap (λ (p : Bytes). p ++ drop 8 bytes) ((list_beq_iff _ _).0 framed)
        ∙ ap (λ (p : Bytes). client_payload_magic ++ p) rest
    | inr plain ↦ cc (rw plain at e)
  ],
  λ e. rw e refl,
)
