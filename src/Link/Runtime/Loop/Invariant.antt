-- ===== src/Link/Runtime/Loop/Invariant.antt =====
-- The states at the head of the event loop.
use jq_ble.Prelude.{
  ◌≡◌, subst, ◌==◌, Bool, get, IsSorted, Bool-cases, Option-cases, inl, inr, arith, nat_eq,
  nat_order,
}
use jq_ble.Core.Endpoints.{NodeId, id_eq, id_order}
use jq_ble.Link.Sessions.Invariant.{IsWellFormed, Reachable-IsWellFormed}
use jq_ble.Link.Startup.{power_state, central_power_changed}
use jq_ble.Link.Host.{Host}
use jq_ble.Link.Runtime.State.{
  Task, BleConfig, BleRestoredState, ok, initial_task, new_with_restored_state,
}
use jq_ble.Link.Runtime.Ingress.{flush_deferred_control_ingress}
use jq_ble.Link.Runtime.Dispatch.{dispatch_outbound_batch}
use jq_ble.Link.Runtime.Peers.{rehydrate_restored_state}
use jq_ble.Link.Runtime.Starting.Progress.{IsOrdered, power_changed-IsOrdered}
use jq_ble.Link.Runtime.Loop.{
  BleDriverCommand, dispatch, shutdown, CentralEvent, adapter_state_changed, device_discovered,
  device_connected, device_disconnected, characteristic_notification, Arm, command, central,
  peripheral, request, accept, channel, retry_deferred, retry_startup, ended, closed,
  handle_central_event, handle_command, serve, start, Running, started, turn, waited,
}
use jq_ble.Link.Runtime.Loop.Sound.{IsSound, start-IsSound}
use jq_ble.Link.Runtime.Loop.Handlers.{
  WhenSome, try_startup-IsSound, dispatch_outbound_batch-IsSound,
}
use jq_ble.Link.Runtime.Loop.Arrivals.{
  rehydrate_from-IsSound, handle_device_discovered-IsSound, handle_device_connected-IsSound,
  handle_device_disconnected-IsSound,
}
use jq_ble.Link.Runtime.Loop.Requests.{
  handle_peripheral_request-IsSound, handle_peripheral_state_event-IsSound,
  handle_l2cap_accept-IsSound, handle_l2cap_runtime_event-IsSound,
  handle_characteristic_notification-IsSound,
}

module _ {W D C X : Type 0} (h : Host W D C X) where
  handle_central_event-IsSound :
      (t : Task W D X) (e : CentralEvent) → IsSound t → IsSound (handle_central_event h t e)
  unfolding handle_central_event
  handle_central_event-IsSound t (adapter_state_changed powered) s =
      let changed =
        start-IsSound s (central_power_changed t.startup (power_state powered))
          (power_changed-IsOrdered t.startup (power_state powered) s.ordered).0 in
      elim (Bool-cases powered) [
        | inl on ↦ rw on (try_startup-IsSound h _ (rw on at changed))
        | inr off ↦ rw off (rw off at changed)
      ]
  handle_central_event-IsSound t (device_discovered device) s =
      handle_device_discovered-IsSound h t device s
  handle_central_event-IsSound t (device_connected d) s = handle_device_connected-IsSound h t d s
  handle_central_event-IsSound t (device_disconnected d cause) s =
      handle_device_disconnected-IsSound h t d cause s
  handle_central_event-IsSound t (characteristic_notification d uuid value) s =
      handle_characteristic_notification-IsSound h t d uuid value s

  abbrev state_of : Task W D X × Bool → Task W D X
  state_of r = r.0

  handle_command-IsSound :
      (t : Task W D X) (c : BleDriverCommand)
      → IsSound t
      → WhenSome (λ r. IsSound (state_of r)) (handle_command h t c)
  unfolding handle_command
  handle_command-IsSound t shutdown s = s
  handle_command-IsSound t (dispatch batch) s =
      elim (Option-cases (dispatch_outbound_batch h t batch)) [
        | inl gone ↦ rw (gone, handle_command) tt
        | inr (t1, done) ↦
            rw (done, handle_command) (rw done at (dispatch_outbound_batch-IsSound h t batch s))
      ]

  serve-IsSound :
      (t : Task W D X) (arm : Arm C)
      → IsSound t
      → WhenSome (λ r. IsSound (state_of r)) (serve h t arm)
  unfolding serve
  serve-IsSound t (command c) s = handle_command-IsSound t c s
  serve-IsSound t (central e) s = handle_central_event-IsSound t e s
  serve-IsSound t (peripheral e) s = handle_peripheral_state_event-IsSound h t e s
  serve-IsSound t (request r) s = handle_peripheral_request-IsSound h t r s
  serve-IsSound t (accept result) s = handle_l2cap_accept-IsSound h t result s
  serve-IsSound t (channel e) s = handle_l2cap_runtime_event-IsSound h t e s
  serve-IsSound t retry_deferred s = s
  serve-IsSound t retry_startup s = try_startup-IsSound h t s
  serve-IsSound t ended s = s
  serve-IsSound t closed s = s

  flush-IsSound : (t : Task W D X) → IsSound t → IsSound (flush_deferred_control_ingress h t)
  unfolding flush_deferred_control_ingress
  flush-IsSound t s = s

  start-task-IsSound : (t : Task W D X) → IsSound t → IsSound (start h t)
  unfolding start rehydrate_restored_state
  start-task-IsSound t s =
      try_startup-IsSound h _ (rehydrate_from-IsSound h t t.restored_state.central_devices s)

  Running-IsSound : (t0 t : Task W D X) → IsSound t0 → Running h t0 t → IsSound t
  Running-IsSound t0 _ s started = start-task-IsSound t0 s
  Running-IsSound t0 _ s (turn {t} {t'} before arm enabled done) = rw done at (
      serve-IsSound (flush_deferred_control_ingress h t) arm
        (flush-IsSound t (Running-IsSound t0 t s before)))
  Running-IsSound t0 _ s (waited {t} before w) = Running-IsSound t0 t s before

  initial-IsSound :
      (n : NodeId) (w : W) (d : D) (config : BleConfig) (restored : BleRestoredState)
      → IsSound (initial_task {X = X} n w d config restored)
  unfolding get
  initial-IsSound n w d config restored = record {
    ordered = ground arith;
    sessions_sorted = tt;
    channels_sorted = tt;
    reachable = λ m p found. cc;
  }

  same_task : (t t0 : Task W D X) → ok t ≡ ok t0 → t ≡ t0
  same_task t t0 e = cc

  new-IsSound :
      (n : NodeId) (w : W) (d : D) (config : BleConfig) (restored : BleRestoredState)
      (t0 : Task W D X)
      → new_with_restored_state n w d config restored ≡ ok t0
      → IsSound t0
  unfolding new_with_restored_state
  new-IsSound n w d config restored t0 e = elim (Bool-cases (config.queue.ingress_capacity == 0)) [
    | inl no_ingress ↦ cc (rw no_ingress at e)
    | inr ingress ↦ elim (Bool-cases (config.queue.command_capacity == 0)) [
      | inl no_commands ↦ cc (rw (ingress, no_commands) at e)
      | inr commands ↦
          subst IsSound (same_task _ t0 (rw (ingress, commands) at e))
            (initial-IsSound n w d config restored)
    ]
  ]

  -- From the construction of the task on, after any events, commands and answers of the radios: the
  -- parts of the radio have started in order, no node and no channel stands twice in its map, and the
  -- sessions of every node are well formed.
  pub Running-IsWellFormed :
      (n : NodeId) (w : W) (d : D) (config : BleConfig) (restored : BleRestoredState)
      (t0 t : Task W D X) (m : NodeId)
      → new_with_restored_state n w d config restored ≡ ok t0
      → Running h t0 t
      → IsOrdered t.startup
        × IsSorted t.sessions
        × IsSorted t.l2cap_channels
        × WhenSome IsWellFormed (get m t.sessions)
  Running-IsWellFormed n w d config restored t0 t m created run =
      let s = Running-IsSound t0 t (new-IsSound n w d config restored t0 created) run in
      (
        s.ordered,
        s.sessions_sorted,
        s.channels_sorted,
        elim (Option-cases (get m t.sessions)) [
          | inl gone ↦ rw gone tt
          | inr (p, found) ↦ rw found (Reachable-IsWellFormed (s.reachable m p found))
        ],
      )
