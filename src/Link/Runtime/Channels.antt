-- ===== src/Link/Runtime/Channels.antt =====
-- Sessions and L2CAP channels of the task: installation, closure, and loss of a device.
use jq_ble.Prelude.{
  not, none, some, ◌==◌, nat_eq, nat_order, Map, get, insert, remove, retain_entries,
}
use jq_ble.Core.Endpoints.{NodeId, DeviceId, id_eq, id_order}
use jq_ble.Link.Gatt.{p2c_char_uuid, l2cap_endpoint}
use jq_ble.Link.Sessions.{
  BleChannelId, gatt_central, l2cap, PeerSessions, install_gatt_central, gatt_with_fallback,
  promote_l2cap, l2cap_preferred_sessions, downgrade_l2cap, session_endpoint, endpoints_for_device,
  references_device,
}
use jq_ble.Link.Host.{Host}
use jq_ble.Link.Runtime.State.{Task, take_channel_id}
use jq_ble.Link.Runtime.Ingress.{emit_link_observed, emit_faulted_links}

-- `sessions.entry(node_id).and_modify(modify).or_insert_with(new)`.
abbrev pub upsert :
    NodeId
    → (PeerSessions → PeerSessions)
    → PeerSessions
    → Map NodeId PeerSessions
    → Map NodeId PeerSessions
upsert node_id modify new m =
    insert node_id (elim (get node_id m) [ none ↦ new | some p ↦ modify p ]) m

module _ {W D C X : Type 0} (h : Host W D C X) where
  unfoldable pub install_gatt_session : Task W D X → NodeId → DeviceId → Task W D X
  install_gatt_session t node_id device_id =
      let session = gatt_central device_id in
      record t {
        world = h.subscribe_characteristic device_id p2c_char_uuid t.world;
        sessions =
            upsert node_id (λ p. install_gatt_central p session) (gatt_with_fallback session)
              t.sessions;
      }

  unfoldable pub register_l2cap_channel :
      Task W D X → NodeId → DeviceId → C → BleChannelId × Task W D X
  unfolding take_channel_id
  register_l2cap_channel t node_id device_id channel =
      let (channel_id, t') = take_channel_id t in
      (
        channel_id,
        record t' {
          world = h.spawn_tasks channel_id channel t'.world;
          l2cap_channels =
              insert channel_id (record { node_id = node_id; device_id = device_id })
                t'.l2cap_channels;
        },
      )

  unfoldable pub install_l2cap_session : Task W D X → NodeId → DeviceId → C → Task W D X
  unfolding register_l2cap_channel
  install_l2cap_session t node_id device_id channel =
      let (channel_id, t') = register_l2cap_channel t node_id device_id channel in
      let session = l2cap device_id channel_id in
      emit_link_observed h
        (record t' {
          sessions =
              upsert node_id (λ p. promote_l2cap p session) (l2cap_preferred_sessions session none)
                t'.sessions;
        })
        node_id (l2cap_endpoint device_id)

  -- The task when the channel's node has sessions: they are downgraded, and the fallback, if any, is
  -- reported.
  unfoldable pub close_in_sessions : Task W D X → NodeId → BleChannelId → PeerSessions → Task W D X
  close_in_sessions t node_id channel_id p =
      let (p', fallback) = downgrade_l2cap p channel_id in
      let t' = record t { sessions = insert node_id p' t.sessions } in
      elim fallback [
        | none ↦ t'
        | some session ↦ emit_link_observed h t' node_id (session_endpoint session)
      ]

  unfoldable pub handle_l2cap_channel_closed : Task W D X → BleChannelId → Task W D X
  unfolding close_in_sessions
  handle_l2cap_channel_closed t channel_id = elim (get channel_id t.l2cap_channels) [
    | none ↦ t
    | some channel ↦
        let t' = record t { l2cap_channels = remove channel_id t.l2cap_channels } in
        elim (get channel.node_id t.sessions) [
          | none ↦ t'
          | some p ↦ close_in_sessions t' channel.node_id channel_id p
        ]
  ]

  unfoldable pub emit_faulted_links_for_device : Task W D X → NodeId → DeviceId → Task W D X
  emit_faulted_links_for_device t node_id device_id = elim (get node_id t.sessions) [
    | none ↦ t
    | some p ↦ emit_faulted_links h t node_id (endpoints_for_device p device_id)
  ]

module _ {W D X : Type 0} where
  unfoldable pub drop_l2cap_channels_for_node : Task W D X → NodeId → Task W D X
  drop_l2cap_channels_for_node t node_id = record t {
    l2cap_channels = retain_entries (λ _ c. not (c.node_id == node_id)) t.l2cap_channels;
  }

  -- `sessions.retain(|_, sessions| !session_references_device(sessions, &device_id))`.
  unfoldable pub drop_sessions_of_device : Task W D X → DeviceId → Task W D X
  drop_sessions_of_device t device_id = record t {
    sessions = retain_entries (λ _ p. not (references_device p device_id)) t.sessions;
  }
