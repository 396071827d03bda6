-- ===== src/Events/Effects/AnyOrder.antt =====
-- The stored counters after a sequence of events that app/analytics/eventhandlers/handlers.go handled
-- over MongoDB, and their independence of the order in which the events arrived.
use mathlib.Core.List.{Permᴰ}
use quickbite_analytics_serv.Base.{String, ◌≡◌, refl, sym, ap, ◌∙◌, List, ◌∷◌}
use quickbite_analytics_serv.Base.Int.{◌+ℤ◌, int_laws}
use quickbite_analytics_serv.Errors.{ok}
use quickbite_analytics_serv.Mongo.{Mongo}
use quickbite_analytics_serv.Mongo.Values.{Time}
use quickbite_analytics_serv.Mongo.Rows.{Counter}
use quickbite_analytics_serv.Mongo.Laws.{UpsertLaws}
use quickbite_analytics_serv.Repository.Indexes.{all_indexes}
use quickbite_analytics_serv.Repository.Stores.{new_analytics_service}
use quickbite_analytics_serv.Repository.Counting.{mongo_laws}
use quickbite_analytics_serv.Repository.Counting.Upsert.{counted_in}
use quickbite_analytics_serv.Rows.{Row, Change, total_for, total_for-append}
use quickbite_analytics_serv.Events.Payloads.{Envelope, Decoders}
use quickbite_analytics_serv.Events.Effects.{event_service, effect, handle_all}
use quickbite_analytics_serv.Events.Effects.Laws.{effects_of, handle_all-Adds}

module _ {W R : Type 0} (m : Mongo W) (laws : UpsertLaws m all_indexes) (utc_date : Time → String)
    (json : Decoders R) where
  -- all effects of the events, in their order
  abbrev pub effects : List (Envelope R) → List Change
  effects events = effects_of (new_analytics_service m) (mongo_laws m laws) utc_date json events

  two_effects :
      (r : Row) (k : Counter) (x y : Envelope R) (l : List (Envelope R))
      → total_for r k (effects (x ∷ y ∷ l))
        ≡ total_for r k (effect json utc_date x)
          +ℤ (total_for r k (effect json utc_date y) +ℤ total_for r k (effects l))
  two_effects r k x y l =
      total_for-append r k (effect json utc_date x) (effects (y ∷ l))
      ∙ ap (λ n. total_for r k (effect json utc_date x) +ℤ n)
          (total_for-append r k (effect json utc_date y) (effects l))

  swapped :
      (r : Row) (k : Counter) (x y : Envelope R) (l : List (Envelope R))
      → total_for r k (effects (x ∷ y ∷ l)) ≡ total_for r k (effects (y ∷ x ∷ l))
  swapped r k x y l = two_effects r k x y l ∙ rotated ∙ sym (two_effects r k y x l)
    where
      rotated :
          total_for r k (effect json utc_date x)
            +ℤ (total_for r k (effect json utc_date y) +ℤ total_for r k (effects l))
          ≡ total_for r k (effect json utc_date y)
            +ℤ (total_for r k (effect json utc_date x) +ℤ total_for r k (effects l))
      rotated = omega int_laws

  total_for-perm :
      {xs ys : List (Envelope R)} (r : Row) (k : Counter)
      → Permᴰ xs ys
      → total_for r k (effects xs) ≡ total_for r k (effects ys)
  total_for-perm r k Permᴰ.nil = refl
  total_for-perm r k (Permᴰ.cons {a = a} {b = b} {l₁ = xs} {l₂ = ys} same p) =
      rw
        (
          total_for-append r k (effect json utc_date a) (effects xs),
          total_for-append r k (effect json utc_date b) (effects ys),
          same,
          total_for-perm r k p,
        )
        refl
  total_for-perm r k (Permᴰ.swap {a = a} {b = b} {a' = a'} {b' = b'} {l = l} same same') =
      swapped r k a b l
      ∙ ap (λ (e : Envelope R). total_for r k (effects (e ∷ a ∷ l))) same'
      ∙ ap (λ (e : Envelope R). total_for r k (effects (a' ∷ e ∷ l))) same
  total_for-perm r k (Permᴰ.trans p q) = total_for-perm r k p ∙ total_for-perm r k q

  -- Over a MongoDB that keeps the laws of upserts under the service's indexes, a sequence of events
  -- that were all handled adds to the stored counters the sum of what their payloads say: a placed or
  -- paid order its sale, each product once, a rejection and a delivery their counts. It changes no
  -- other counter of any row.
  pub stored_events :
      (events : List (Envelope R)) (w : W)
      → (handle_all json (event_service (new_analytics_service m) utc_date) events w).0 ≡ ok tt
      → (r : Row) (k : Counter)
      → counted_in m laws
          (handle_all json (event_service (new_analytics_service m) utc_date) events w).1
          r
          k
        ≡ counted_in m laws w r k +ℤ total_for r k (effects events)
  unfolding mongo_laws
  stored_events events =
      handle_all-Adds (new_analytics_service m) (mongo_laws m laws) utc_date json events

  -- Over such a MongoDB the order in which events arrive does not matter: if the same events are all
  -- handled in either of two orders, every stored counter ends up the same.
  pub stored_events-any_order :
      (events events' : List (Envelope R)) (w : W)
      → Permᴰ events events'
      → (handle_all json (event_service (new_analytics_service m) utc_date) events w).0 ≡ ok tt
      → (handle_all json (event_service (new_analytics_service m) utc_date) events' w).0 ≡ ok tt
      → (r : Row) (k : Counter)
      → counted_in m laws
          (handle_all json (event_service (new_analytics_service m) utc_date) events w).1
          r
          k
        ≡ counted_in m laws
            (handle_all json (event_service (new_analytics_service m) utc_date) events' w).1
            r
            k
  stored_events-any_order events events' w order done done' r k =
      stored_events events w done r k
      ∙ ap (λ n. counted_in m laws w r k +ℤ n) (total_for-perm r k order)
      ∙ sym (stored_events events' w done' r k)
