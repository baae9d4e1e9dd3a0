-- ===== src/Link/Runtime/Peripheral/Gate.antt =====
-- Whose traffic the peripheral role lets in.
use jq_ble.Prelude.{
  ◌≡◌, refl, ap, ◌∙◌, true, Option, none, some, ◌==◌, option_eq, get, nat_eq, list_eq, Bool-cases,
  Option-cases, inl, inr, ◌⊎◌,
}
use jq_ble.Core.Endpoints.{NodeId, DeviceId, id_eq, id_order, id_beq_iff}
use jq_ble.Link.Host.{Host}
use jq_ble.Link.Runtime.State.{Task, resolved_node_id_for_device}
use jq_ble.Link.Runtime.Peers.{read_l2cap_identity}
use jq_ble.Link.Runtime.Peers.Admission.{get-install_l2cap_session}
use jq_ble.Link.Runtime.Peripheral.{handle_l2cap_accept}

same_node : (o : Option NodeId) (n : NodeId) → (o == some n) ≡ true → o ≡ some n
same_node none n e = cc
same_node (some m) n e = ap some ((id_beq_iff m n).0 e)

module _ {W D C X : Type 0} (h : Host W D C X) where
  -- An accepted L2CAP channel leaves the sessions of every node as they were, but for the node whose
  -- identity the channel announced and as which its device had already been identified.
  pub get-handle_l2cap_accept :
      (t : Task W D X) (d : DeviceId) (c : C) (m : NodeId)
      → (get m (handle_l2cap_accept h t (some (d, c))).sessions ≡ get m t.sessions)
        ⊎ (((read_l2cap_identity h c t.world).0 ≡ some m)
            × (resolved_node_id_for_device h t d ≡ some m))
  unfolding handle_l2cap_accept resolved_node_id_for_device
  get-handle_l2cap_accept t d c m =
      let read = read_l2cap_identity h c t.world in
      let known = resolved_node_id_for_device h t d in
      elim (Option-cases read.0) [
        | inl e ↦ inl (rw (e, handle_l2cap_accept) refl)
        | inr (n, e) ↦ elim (Bool-cases (known == some n)) [
          | inr differ ↦ inl (rw (e, handle_l2cap_accept) (rw differ refl))
          | inl same ↦ elim (get-install_l2cap_session h (record t { world = read.1 }) n m d c) [
            | inl kept ↦ inl (rw (e, handle_l2cap_accept) (rw same kept))
            | inr is_m ↦ inr (e ∙ ap some is_m, same_node known n same ∙ ap some is_m)
          ]
        ]
      ]
