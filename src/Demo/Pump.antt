-- ===== src/Demo/Pump.antt =====
-- crates/demo/src/lib.rs, `spawn_application_pump`: what becomes of a payload.
use jq_ble.Prelude.{
  ◌≡◌, ◌↔◌, refl, sym, ap, ◌∙◌, none, some, Bytes, ◌==◌, if◌then◌else◌, pair_eq, pair_order,
  Bool-cases, Option-cases, inl, inr, ◌≢◌, ◌⊎◌, subst,
}
use jq_ble.Core.Endpoints.{NodeId, id_eq, id_order}
use jq_ble.Demo.Frames.{
  ApplicationFrame, encode_application_frame, decode_application_frame, HasNodeSize, Frames,
  decoded, encoded,
}

pub record JacquardIncomingMessage : Type 0 where
  pub from_node_id : NodeId
  pub transport_from_node_id : NodeId
  pub payload : Bytes

pub record JacquardRelayDrop : Type 0 where
  pub from_node_id : NodeId
  pub destination_node_id : NodeId

-- What the pump does with a payload: it hands a message to the application, spawns a relay of the
-- payload to a destination, or drops it.
pub data Handled : Type 0 where
  deliver : JacquardIncomingMessage → Handled
  relay : JacquardRelayDrop → Bytes → Handled
  ignored : Handled

unfoldable pub handle_frame : NodeId → NodeId → Bytes → ApplicationFrame → Handled
handle_frame local_node_id transport_from_node_id payload frame =
    if frame.destination_node_id == local_node_id
    then deliver (record {
      from_node_id = frame.from_node_id;
      transport_from_node_id = transport_from_node_id;
      payload = frame.payload;
    })
    else relay
        (record {
          from_node_id = frame.from_node_id;
          destination_node_id = frame.destination_node_id;
        })
        payload

unfoldable pub pump : NodeId → NodeId → Bytes → Handled
unfolding decode_application_frame handle_frame
pump local_node_id transport_from_node_id payload = elim (decode_application_frame payload) [
  | none ↦ ignored
  | some frame ↦ handle_frame local_node_id transport_from_node_id payload frame
]

module _ (local transport : NodeId) (bytes : Bytes) where
  -- The payload is a frame to this node, and the message is what was framed.
  abbrev pub IsFor : JacquardIncomingMessage → Type 0
  IsFor m =
      (bytes ≡ encode_application_frame m.from_node_id local m.payload)
      × HasNodeSize m.from_node_id
      × (m.transport_from_node_id ≡ transport)

  -- The payload is a frame to another node, and the relay passes it on as it is.
  abbrev pub IsBound : JacquardRelayDrop → Bytes → Type 0
  IsBound drop relayed =
      ((payload : Bytes) × (bytes
          ≡ encode_application_frame drop.from_node_id drop.destination_node_id payload))
      × HasNodeSize drop.from_node_id
      × HasNodeSize drop.destination_node_id
      × (drop.destination_node_id ≢ local)
      × (relayed ≡ bytes)

  abbrev message_of : ApplicationFrame → JacquardIncomingMessage
  message_of frame = record {
    from_node_id = frame.from_node_id;
    transport_from_node_id = transport;
    payload = frame.payload;
  }

  abbrev drop_of : ApplicationFrame → JacquardRelayDrop
  drop_of frame = record {
    from_node_id = frame.from_node_id;
    destination_node_id = frame.destination_node_id;
  }

  handle_here :
      (frame : ApplicationFrame)
      → frame.destination_node_id ≡ local
      → handle_frame local transport bytes frame ≡ deliver (message_of frame)
  unfolding handle_frame
  handle_here frame here = rw ((id_eq.decides frame.destination_node_id local).1 here) refl

  handle_elsewhere :
      (frame : ApplicationFrame)
      → frame.destination_node_id ≢ local
      → handle_frame local transport bytes frame ≡ relay (drop_of frame) bytes
  unfolding handle_frame
  handle_elsewhere frame elsewhere = elim (Bool-cases (frame.destination_node_id == local)) [
    | inl here ↦ absurd (elsewhere ((id_eq.decides _ _).0 here))
    | inr other ↦ rw other refl
  ]

  pump_framed :
      (frame : ApplicationFrame)
      → Frames bytes frame
      → pump local transport bytes ≡ handle_frame local transport bytes frame
  unfolding pump
  pump_framed frame f = rw (encoded bytes frame f, pump) refl

  pump_plain : decode_application_frame bytes ≡ none → pump local transport bytes ≡ ignored
  unfolding pump
  pump_plain plain = rw (plain, pump) refl

  -- The cases of the pump, by the frame that the payload is.
  pump-cases :
      (pump local transport bytes ≡ ignored)
      ⊎ ((frame : ApplicationFrame) × Frames bytes frame
          × (((frame.destination_node_id ≡ local)
                × (pump local transport bytes ≡ deliver (message_of frame)))
              ⊎ ((frame.destination_node_id ≢ local)
                  × (pump local transport bytes ≡ relay (drop_of frame) bytes))))
  pump-cases = elim (Option-cases (decode_application_frame bytes)) [
    | inl plain ↦ inl (pump_plain plain)
    | inr (frame, e) ↦
        let f = decoded bytes frame e in
        elim (Bool-cases (frame.destination_node_id == local)) [
          | inl same ↦
              let here = (id_eq.decides _ _).0 same in
              inr (frame, f, inl (here, pump_framed frame f ∙ handle_here frame here))
          | inr other ↦
              let elsewhere : frame.destination_node_id ≢ local =
                λ here. cc ((id_eq.decides _ _).1 here) in
              inr
                (frame, f, inr (elsewhere, pump_framed frame f ∙ handle_elsewhere frame elsewhere))
        ]
  ]

  deliver-IsFor : (m : JacquardIncomingMessage) → pump local transport bytes ≡ deliver m → IsFor m
  deliver-IsFor m e = elim pump-cases [
    | inl i ↦ absurd cc
    | inr (frame, f, inl (here, d)) ↦
        let same : message_of frame ≡ m = cc in
        subst IsFor same (
          f.0 ∙ ap (λ to. encode_application_frame frame.from_node_id to frame.payload) here,
          f.1,
          refl,
        )
    | inr (frame, f, inr (elsewhere, r)) ↦ absurd cc
  ]

  relay-IsBound :
      (drop : JacquardRelayDrop) (relayed : Bytes)
      → pump local transport bytes ≡ relay drop relayed
      → IsBound drop relayed
  relay-IsBound drop relayed e = elim pump-cases [
    | inl i ↦ absurd cc
    | inr (frame, f, inl (here, d)) ↦ absurd cc
    | inr (frame, f, inr (elsewhere, r)) ↦
        let same : drop_of frame ≡ drop = cc in
        let whole : bytes ≡ relayed = cc in
        subst (λ drop. IsBound drop relayed) same
          ((frame.payload, f.0), f.1, f.2, elsewhere, sym whole)
  ]

  -- The pump hands a message to the application exactly if the payload is a frame to this node from
  -- the message's sender, whichever node it came through; and it relays a payload exactly if that is a
  -- frame to another node, the payload unchanged, so that the next hop finds the same sender in it.
  pub pump-IsFor-IsBound :
      (m : JacquardIncomingMessage) (drop : JacquardRelayDrop) (relayed : Bytes)
      → HasNodeSize local
      → ((pump local transport bytes ≡ deliver m) ↔ IsFor m)
        × ((pump local transport bytes ≡ relay drop relayed) ↔ IsBound drop relayed)
  pump-IsFor-IsBound m drop relayed sized = (
    (
      deliver-IsFor m,
      λ (e, source, through).
          let frame : ApplicationFrame = record {
            from_node_id = m.from_node_id;
            destination_node_id = local;
            payload = m.payload;
          } in
          pump_framed frame (e, source, sized)
          ∙ handle_here frame refl
          ∙ ap (λ t. let m' : Handled = deliver (record m { transport_from_node_id = t }) in m')
              (sym through),
    ),
    (
      relay-IsBound drop relayed,
      λ ((payload, e), source, destination, elsewhere, whole).
          let frame : ApplicationFrame = record {
            from_node_id = drop.from_node_id;
            destination_node_id = drop.destination_node_id;
            payload = payload;
          } in
          pump_framed frame (e, source, destination)
          ∙ handle_elsewhere frame elsewhere
          ∙ ap (relay drop) (sym whole),
    ),
  )
