-- ===== src/Boot/Consumers/Laws.antt =====
-- The handlers that the consumers of lib/boot/boot.go find, whatever order the maps were visited in.
use mathlib.Core.List.{Permᴰ}
use quickbite_analytics_serv.Base.{
  String, ◌≡◌, refl, sym, ap, ◌∙◌, ◌⊎◌, inl, inr, Bool, true, false, Bool-cases, Option, none, some,
  List, [], ◌∷◌, ◌||◌, str_eq, eq_iff,
}
use quickbite_analytics_serv.Errors.{Result, ok, err}
use quickbite_analytics_serv.Mongo.Rows.{assoc}
use quickbite_analytics_serv.Messaging.{Delivery}
use quickbite_analytics_serv.Events.Payloads.{Envelope, Decoders, EventService}
use quickbite_analytics_serv.Events.Handlers.{EventHandler, build}
use quickbite_analytics_serv.Events.Consumer.{
  EventDeduper, Consumer, new_consumer, register, dispatch, dispatch_envelope, after_mark,
  run_handler, settle,
}
use quickbite_analytics_serv.Rbac.Cache.{CacheWorld}
use quickbite_analytics_serv.Rbac.Changes.{RbacPermissionsChangedPayload, build_rbac_handlers}
use quickbite_analytics_serv.Boot.Env.{Env}
use quickbite_analytics_serv.Boot.Consumers.Lookup.{DistinctKeys, assoc-perm}
use quickbite_analytics_serv.Boot.Consumers.{
  register_all, order_topology, core_topology, provide_consumers, provide_order_event_handlers,
  provide_rbac_event_handlers,
}

abbrev or_else : {V : Type 0} → Option V → Option V → Option V
or_else none o = o
or_else (some v) o = some v

or_else-none : {V : Type 0} (o : Option V) → or_else o none ≡ o
or_else-none none = refl
or_else-none (some v) = refl

module _ {W B R : Type 0} where
  abbrev pub with_handlers : List (String × EventHandler W R) → Consumer W B R → Consumer W B R
  with_handlers hs c = record c { handlers = hs }

  register_all-handlers :
      (hs : List (String × EventHandler W R)) (c : Consumer W B R) (t : String)
      → DistinctKeys hs
      → assoc t (register_all hs c).handlers ≡ or_else (assoc t hs) (assoc t c.handlers)
  unfolding register_all register
  register_all-handlers [] c t d = refl
  register_all-handlers ((k, h) ∷ rest) c t (unlisted, d) =
      register_all-handlers rest (register k h c) t d ∙ by_test (Bool-cases (str_eq k t))
    where
      by_test :
          (str_eq k t ≡ true) ⊎ (str_eq k t ≡ false)
          → or_else (assoc t rest) (assoc t ((k, h) ∷ c.handlers))
            ≡ or_else (assoc t ((k, h) ∷ rest)) (assoc t c.handlers)
      by_test (inl same) =
          let absent_too : assoc t rest ≡ none =
            ap (λ s. assoc s rest) (sym ((eq_iff k t).0 same)) ∙ unlisted in
          rw (same, absent_too) refl
      by_test (inr other) = rw other refl

  register_all-rest :
      (hs : List (String × EventHandler W R)) (c : Consumer W B R)
      → register_all hs c ≡ with_handlers (register_all hs c).handlers c
  unfolding register_all register
  register_all-rest [] c = refl
  register_all-rest ((k, h) ∷ rest) c = register_all-rest rest (register k h c)

  -- Consumers that find the same handlers dispatch the same.
  module _ (c : Consumer W B R) (hs hs' : List (String × EventHandler W R)) (d : Delivery W B) where
    settle-same :
        (env : Envelope R) (r : Result (Unit {0})) (w : W)
        → settle (with_handlers hs c) d env r w ≡ settle (with_handlers hs' c) d env r w
    unfolding settle
    settle-same env (ok _) w = refl
    settle-same env (err e) w = refl

    run_handler-same :
        (env : Envelope R) (h : Option (EventHandler W R)) (w : W)
        → run_handler (with_handlers hs c) d env h w ≡ run_handler (with_handlers hs' c) d env h w
    unfolding run_handler
    run_handler-same env none w = refl
    run_handler-same env (some h) w = settle-same env (h env w).0 (h env w).1

    after_mark-same :
        (env : Envelope R) (fresh : Result Bool) (w : W)
        → assoc env.event_type hs ≡ assoc env.event_type hs'
        → after_mark (with_handlers hs c) d env fresh w
          ≡ after_mark (with_handlers hs' c) d env fresh w
    unfolding after_mark
    after_mark-same env (err e) w found = refl
    after_mark-same env (ok false) w found = refl
    after_mark-same env (ok true) w found =
        rw found (run_handler-same env (assoc env.event_type hs') w)

    dispatch_envelope-same :
        (r : Result (Envelope R)) (w : W)
        → ((t : String) → assoc t hs ≡ assoc t hs')
        → dispatch_envelope (with_handlers hs c) d r w
          ≡ dispatch_envelope (with_handlers hs' c) d r w
    unfolding dispatch_envelope
    dispatch_envelope-same (err e) w found = refl
    dispatch_envelope-same (ok env) w found =
        elim (Bool-cases (str_eq env.event_id "" || str_eq env.event_type "")) [
          | inl unnamed ↦ rw unnamed refl
          | inr named ↦ rw named (
              after_mark-same env (c.deduper.mark_seen env.event_id w).0
                (c.deduper.mark_seen env.event_id w).1 (found env.event_type))
        ]

    dispatch-same :
        (w : W)
        → ((t : String) → assoc t hs ≡ assoc t hs')
        → dispatch (with_handlers hs c) d w ≡ dispatch (with_handlers hs' c) d w
    unfolding dispatch
    dispatch-same w found = dispatch_envelope-same (c.decode d.body) w found

  -- A consumer with no handler yet, once the map was visited in some order, dispatches by the map.
  register_all-dispatch :
      (c : Consumer W B R) (handlers visited : List (String × EventHandler W R)) (d : Delivery W B)
      (w : W)
      → c.handlers ≡ []
      → DistinctKeys handlers
      → Permᴰ handlers visited
      → dispatch (register_all visited c) d w ≡ dispatch (with_handlers handlers c) d w
  register_all-dispatch c handlers visited d w unset distinct order =
      ap (λ c'. dispatch c' d w) (register_all-rest visited c)
      ∙ dispatch-same c (register_all visited c).handlers handlers d w found
    where
      found : (t : String) → assoc t (register_all visited c).handlers ≡ assoc t handlers
      found t =
          let (distinct', same) = assoc-perm order distinct in
          register_all-handlers visited c t distinct'
          ∙ rw (unset, or_else-none (assoc t visited)) (sym (same t))

-- The keys of the two maps.
build-DistinctKeys :
    {W R : Type 0} (json : Decoders R) (svc : EventService W)
    → DistinctKeys (provide_order_event_handlers json svc)
unfolding provide_order_event_handlers build
build-DistinctKeys json svc = (refl, (refl, (refl, (refl, tt))))

build_rbac_handlers-DistinctKeys :
    (W : Type 0) {R : Type 0} (decode : R → Result RbacPermissionsChangedPayload)
    → DistinctKeys (provide_rbac_event_handlers {W = W} decode)
unfolding provide_rbac_event_handlers build_rbac_handlers
build_rbac_handlers-DistinctKeys W decode = (refl, tt)

module _ {W B R : Type 0} (cfg : Env) (decode : B → Result (Envelope R))
    (deduper : EventDeduper (CacheWorld W)) (json : Decoders R) (svc : EventService (CacheWorld W))
    (payload : R → Result RbacPermissionsChangedPayload) where
  -- The order in which Go visits the two maps of handlers is not observed: whatever it is, each
  -- consumer dispatches every delivery as one that holds the whole map of its handlers, the four of
  -- the orders or the one of the roles, over its own topology and the deduper that both share.
  pub provide_consumers-any_order :
      (visited visited' : List (String × EventHandler (CacheWorld W) R))
      (d : Delivery (CacheWorld W) B) (w : CacheWorld W)
      → Permᴰ (provide_order_event_handlers json svc) visited
      → Permᴰ (provide_rbac_event_handlers payload) visited'
      → (dispatch (provide_consumers cfg decode deduper visited visited').order_events d w
          ≡ dispatch
              (with_handlers
                (provide_order_event_handlers json svc)
                (new_consumer decode deduper (order_topology cfg)))
              d
              w)
        × (dispatch (provide_consumers cfg decode deduper visited visited').core_events d w
            ≡ dispatch
                (with_handlers
                  (provide_rbac_event_handlers payload)
                  (new_consumer decode deduper (core_topology cfg)))
                d
                w)
  unfolding provide_consumers new_consumer
  provide_consumers-any_order visited visited' d w order order' = (
    register_all-dispatch (new_consumer decode deduper (order_topology cfg))
        (provide_order_event_handlers json svc) visited d w refl (build-DistinctKeys json svc)
        order,
    register_all-dispatch (new_consumer decode deduper (core_topology cfg))
        (provide_rbac_event_handlers payload) visited' d w refl
        (build_rbac_handlers-DistinctKeys W payload) order',
  )
