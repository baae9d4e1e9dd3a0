-- ===== src/Link/Runtime/Ingress/Order.antt =====
-- The sequence of the control events that the bridge gets.
use mathlib.Core.List.{append-nil, append_assoc, Perm, perm_middle, perm_append_comm}
use jq_ble.Prelude.{
  ◌≡◌, refl, sym, ap, subst, ◌∙◌, true, List, [], ◌∷◌, ◌++◌, if◌then◌else◌, Bool-cases, inl, inr,
}
use jq_ble.Core.Events.{TransportIngressEvent}
use jq_ble.Link.Host.{Host, control}
use jq_ble.Link.Runtime.State.{Task}
use jq_ble.Link.Runtime.Ingress.{emit_control_event, flush_from, flush_deferred_control_ingress}

-- A view of the mailbox, the control events that it has taken so far in order: an accepted event is
-- the last of them, and a refused one leaves them as they are.
pub record ControlLog {W D C X : Type 0} (h : Host W D C X) : Type 0 where
  pub taken : W → List (TransportIngressEvent X)
  pub taken-emit :
      (e : TransportIngressEvent X) (w : W)
      → taken (h.emit control e w).1
        ≡ (if (h.emit control e w).0 then taken w ++ e ∷ [] else taken w)

module _ {W D C X : Type 0} (h : Host W D C X) (log : ControlLog h) where
  open log use {taken, taken-emit}

  -- All that the bridge has got or will get, in order.
  abbrev pub outstanding : Task W D X → List (TransportIngressEvent X)
  outstanding t = taken t.world ++ t.deferred_control_ingress

  flush_from-order :
      (w : W) (es : List (TransportIngressEvent X))
      → taken (flush_from h w es).1 ++ (flush_from h w es).0 ≡ taken w ++ es
  unfolding flush_from
  flush_from-order w [] = refl
  flush_from-order w (e ∷ es) = elim (Bool-cases (h.emit control e w).0) [
    | inl accepted ↦
        rw (accepted, flush_from)
          (flush_from-order (h.emit control e w).1 es
            ∙ rw (taken-emit e w, accepted) (append_assoc (taken w) (e ∷ []) es))
    | inr refused ↦ rw (refused, flush_from) (rw (taken-emit e w, refused) refl)
  ]

  -- A flush hands over deferred events from the front, and neither loses, doubles nor reorders one.
  pub flush_deferred_control_ingress-outstanding :
      (t : Task W D X) → outstanding (flush_deferred_control_ingress h t) ≡ outstanding t
  unfolding flush_deferred_control_ingress
  flush_deferred_control_ingress-outstanding t = flush_from-order t.world t.deferred_control_ingress

  -- Where an emitted event comes to stand.
  emit_position :
      (t : Task W D X) (e : TransportIngressEvent X)
      → outstanding (emit_control_event h t e) ≡ (
          if (h.emit control e t.world).0
          then taken t.world ++ e ∷ t.deferred_control_ingress
          else outstanding t ++ e ∷ [])
  unfolding emit_control_event
  emit_position t e = elim (Bool-cases (h.emit control e t.world).0) [
    | inl accepted ↦ rw accepted (
        rw (taken-emit e t.world, accepted)
          (append_assoc (taken t.world) (e ∷ []) t.deferred_control_ingress))
    | inr refused ↦ rw refused (
        rw (taken-emit e t.world, refused)
          (sym (append_assoc (taken t.world) t.deferred_control_ingress (e ∷ []))))
  ]

  -- A control event is never lost, whatever the mailbox answers: together with the events before it,
  -- it is either in the mailbox or deferred, once.
  pub emit_control_event-outstanding :
      (t : Task W D X) (e : TransportIngressEvent X)
      → Perm (outstanding (emit_control_event h t e)) (e ∷ outstanding t)
  emit_control_event-outstanding t e =
      subst (λ es. Perm es (e ∷ outstanding t)) (sym (emit_position t e))
        (elim (Bool-cases (h.emit control e t.world).0) [
          | inl accepted ↦ rw accepted (perm_middle (taken t.world) t.deferred_control_ingress)
          | inr refused ↦ rw refused (perm_append_comm (outstanding t) (e ∷ []))
        ])

  -- An accepted event overtakes all the deferred ones: once the queue is flushed to the end, the
  -- mailbox has the new event before the older events that waited.
  pub emit_control_event_overtakes :
      (t : Task W D X) (e : TransportIngressEvent X)
      → (h.emit control e t.world).0 ≡ true
      → (flush_deferred_control_ingress h (emit_control_event h t e)).deferred_control_ingress ≡ []
      → taken (flush_deferred_control_ingress h (emit_control_event h t e)).world
        ≡ taken t.world ++ e ∷ t.deferred_control_ingress
  emit_control_event_overtakes t e accepted flushed =
      let after = flush_deferred_control_ingress h (emit_control_event h t e) in
      let all : taken after.world ++ after.deferred_control_ingress
          ≡ taken t.world ++ e ∷ t.deferred_control_ingress =
        flush_deferred_control_ingress-outstanding (emit_control_event h t e)
        ∙ emit_position t e
        ∙ rw accepted refl in
      sym (append-nil (taken after.world)) ∙ ap (◌++◌ (taken after.world)) (sym flushed) ∙ all
