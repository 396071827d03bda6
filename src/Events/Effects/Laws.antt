-- ===== src/Events/Effects/Laws.antt =====
-- The handlers of app/analytics/eventhandlers/handlers.go over the service add the effect of their
-- event, and nothing else.
use quickbite_analytics_serv.Base.{String, sym, ◌++◌, inl, inr, Bool-cases, List, [], ◌∷◌, str_eq}
use quickbite_analytics_serv.Base.Int.{add-zero_ℤ}
use quickbite_analytics_serv.Errors.{Err, Result, ok, err}
use quickbite_analytics_serv.Exec.{Exec, ◌>>=◌, ◌>>◌, pure}
use quickbite_analytics_serv.Mongo.Values.{Time}
use quickbite_analytics_serv.Mongo.Rows.{assoc}
use quickbite_analytics_serv.Repository.Interfaces.{AnalyticsService, RepositoryLaws, Adds}
use quickbite_analytics_serv.Rows.{Change, total_for-nil}
use quickbite_analytics_serv.Service.WriteEffects.{
  Adds-then, on_order_placed-Adds, on_order_rejected-Adds, on_order_delivered-Adds,
  on_payment_completed-Adds,
}
use quickbite_analytics_serv.Events.Items.Laws.{to_item_inputs-distinct}
use quickbite_analytics_serv.Events.Payloads.{Envelope, Decoders}
use quickbite_analytics_serv.Events.Handlers.{
  or_permanent, handle_order_placed, handle_order_rejected, handle_order_delivered,
  handle_payment_completed, build,
}
use quickbite_analytics_serv.Events.Effects.{
  event_service, changes_of, placed_changes, payment_changes, rejected_changes, delivered_changes,
  effect, handled_by, handle_all,
}

module _ {W : Type 0} (s : AnalyticsService W) (laws : RepositoryLaws s)
    (utc_date : Time → String) where
  -- A step that decodes: a chain that succeeded got a value, of which the changes are those.
  decoded-Adds :
      {A : Type 0} (r : Result A) (note : Err → Err) (f : A → Exec W (Unit {0}))
      (g : A → List Change)
      → ((a : A) → Adds laws.counted (f a) (g a))
      → Adds laws.counted (or_permanent r note >>= f) (changes_of r g)
  decoded-Adds (ok a) note f g h w done r k = h a w done r k
  decoded-Adds (err e) note f g h w done r k = cc

  -- A step that checks, and yields nothing.
  checked-Adds :
      (r : Result (Unit {0})) (note : Err → Err) (f : Exec W (Unit {0})) (cs : List Change)
      → Adds laws.counted f cs
      → Adds laws.counted (or_permanent r note >> f) cs
  checked-Adds (ok a) note f cs h w done r k = h w done r k
  checked-Adds (err e) note f cs h w done r k = cc

  no_effect-Adds : Adds laws.counted (pure tt) []
  no_effect-Adds w done r k = rw (total_for-nil r k) (sym (add-zero_ℤ (laws.counted w r k)))

  module _ {R : Type 0} (json : Decoders R) (env : Envelope R) where
    placed-Adds :
        Adds laws.counted
          (handle_order_placed json (event_service s utc_date) env)
          (placed_changes json utc_date env.payload)
    unfolding handle_order_placed
    placed-Adds = decoded-Adds (json.order_placed env.payload) _ _ _ λ p. checked-Adds _ _ _ _ (
        decoded-Adds (json.parse_rfc3339 p.placed_at) _ _ _
          λ at. on_order_placed-Adds s laws utc_date _ (to_item_inputs-distinct p.items))

    payment-Adds :
        Adds laws.counted
          (handle_payment_completed json (event_service s utc_date) env)
          (payment_changes json utc_date env.payload)
    unfolding handle_payment_completed
    payment-Adds = decoded-Adds (json.payment_completed env.payload) _ _ _ λ p.
        checked-Adds _ _ _ _ (
          decoded-Adds (json.parse_rfc3339 p.completed_at) _ _ _
            λ at. on_payment_completed-Adds s laws utc_date _ (to_item_inputs-distinct p.items))

    rejected-Adds :
        Adds laws.counted
          (handle_order_rejected json (event_service s utc_date) env)
          (rejected_changes json utc_date env.payload)
    unfolding handle_order_rejected
    rejected-Adds = decoded-Adds (json.order_rejected env.payload) _ _ _ λ p. checked-Adds _ _ _ _ (
        decoded-Adds (json.parse_rfc3339 p.rejected_at) _ _ _
          λ at. on_order_rejected-Adds s laws utc_date _)

    delivered-Adds :
        Adds laws.counted
          (handle_order_delivered json (event_service s utc_date) env)
          (delivered_changes json utc_date env.payload)
    unfolding handle_order_delivered
    delivered-Adds = decoded-Adds (json.order_delivered env.payload) _ _ _ λ p.
        checked-Adds _ _ _ _ (
          decoded-Adds (json.parse_rfc3339 p.placed_at) _ _ _ λ from.
            decoded-Adds (json.parse_rfc3339 p.delivered_at) _ _ _
              λ to. on_order_delivered-Adds s laws utc_date _)

    -- A handler of the map that succeeds adds the effect of its event to the counters, and changes no
    -- other counter.
    pub handled_by-Adds :
        Adds laws.counted
          (handled_by (assoc env.event_type (build json (event_service s utc_date))) env)
          (effect json utc_date env)
    unfolding build effect
    handled_by-Adds = elim (Bool-cases (str_eq "order.placed" env.event_type)) [
      | inl placed ↦ rw placed placed-Adds
      | inr other ↦ rw other (elim (Bool-cases (str_eq "order.rejected" env.event_type)) [
        | inl rejected ↦ rw rejected rejected-Adds
        | inr other ↦ rw other (elim (Bool-cases (str_eq "order.delivered" env.event_type)) [
          | inl delivered ↦ rw delivered delivered-Adds
          | inr other ↦ rw other (elim (Bool-cases (str_eq "payment.completed" env.event_type)) [
            | inl paid ↦ rw paid payment-Adds
            | inr other ↦ rw other no_effect-Adds
          ])
        ])
      ])
    ]

  -- All effects of a sequence of events.
  abbrev pub effects_of : {R : Type 0} → Decoders R → List (Envelope R) → List Change
  effects_of json [] = []
  effects_of json (env ∷ rest) = effect json utc_date env ++ effects_of json rest

  -- Handled one after the other, events add the sum of their effects, each read off its payload: a
  -- placed or paid order its sale, a rejection and a delivery their counts; an event of another type
  -- adds nothing. No other counter of any row changes.
  pub handle_all-Adds :
      {R : Type 0} (json : Decoders R) (events : List (Envelope R))
      → Adds laws.counted
          (handle_all json (event_service s utc_date) events)
          (effects_of json events)
  unfolding handle_all
  handle_all-Adds json [] = no_effect-Adds
  handle_all-Adds json (env ∷ rest) =
      Adds-then laws.counted _ _ _ _ (handled_by-Adds json env) (handle_all-Adds json rest)
