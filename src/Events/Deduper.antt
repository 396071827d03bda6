-- ===== src/Events/Deduper.antt =====
-- app/analytics/repository/event_ids.repo.go as the deduper of lib/coreevents, over the unique index
-- on `event_id`.
use quickbite_analytics_serv.Base.{
  ℕ, String, ◌≡◌, refl, true, false, List, [], ◌∷◌, ◌++◌, ◌==◌, inl, inr, ap, Bool-cases, arith,
}
use quickbite_analytics_serv.Errors.{Err, Result, ok, err}
use quickbite_analytics_serv.Mongo.{Mongo, str, time}
use quickbite_analytics_serv.Mongo.Values.{Bson}
use quickbite_analytics_serv.Mongo.Laws.{MarkerLaws}
use quickbite_analytics_serv.Repository.Indexes.{collection_event_ids}
use quickbite_analytics_serv.Repository.EventIds.{
  has_dup_code, seen_answer, is_dup_key, mark_seen, forget,
}
use quickbite_analytics_serv.Events.Consumer.{EventDeduper}
use quickbite_analytics_serv.Events.Consumer.Laws.{DeduperLaws}

module _ {W : Type 0} (m : Mongo W) where
  abbrev pub event_ids_repo : EventDeduper W
  event_ids_repo = record { mark_seen = mark_seen m; forget = forget m }

  abbrev marker : String → W → List (String × Bson)
  marker i w = ("event_id", str i) ∷ ("received_at", time (m.now w)) ∷ []

  seen_answer-eq-true : (r : Result (Unit {0})) → seen_answer m r ≡ ok true → r ≡ ok tt
  unfolding seen_answer
  seen_answer-eq-true (ok tt) h = refl
  seen_answer-eq-true (err e) h = ground arith

  module _ (laws : MarkerLaws m collection_event_ids "event_id") where
    has_dup_code-split :
        (cs : List ℕ)
        → has_dup_code m cs ≡ true
        → (before : List ℕ) × (after : List ℕ) × (cs ≡ before ++ 11000 ∷ after)
    unfolding has_dup_code
    has_dup_code-split [] h = cc
    has_dup_code-split (c ∷ cs) h = elim (Bool-cases (c == 11000)) [
      | inl found ↦ ([], cs, ap (λ n. n ∷ cs) (dup_code c found))
      | inr other ↦
          let later : has_dup_code m cs ≡ true = rw other at h in
          let (before, after, same) = has_dup_code-split cs later in
          (c ∷ before, after, ap (λ rest. c ∷ rest) same)
    ]
      where
        dup_code : (n : ℕ) → (n == 11000) ≡ true → n ≡ 11000
        dup_code n h = ground arith

    refused_dup :
        (r : Result (Unit {0}))
        → seen_answer m r ≡ ok false
        → (e : Err) × (r ≡ err e) × (has_dup_code m (m.write_errors e) ≡ true)
    unfolding seen_answer is_dup_key
    refused_dup (ok _) h = cc
    refused_dup (err e) h = elim (Bool-cases (has_dup_code m (m.write_errors e))) [
      | inl dup ↦ (e, refl, dup)
      | inr other ↦ let impossible : err e ≡ ok false = rw other at h in cc
    ]

    mark_refused : (i : String) (w : W) → (mark_seen m i w).0 ≡ ok false → laws.marked w i ≡ true
    unfolding mark_seen
    mark_refused i w h =
        let (e, failed, dup) = refused_dup (m.insert_one collection_event_ids (marker i w) w).0 h in
        let (before, after, same) = has_dup_code-split (m.write_errors e) dup in
        laws.insert_refused i (marker i w) w e before after refl failed same

    mark_again : (i : String) (w : W) → laws.marked w i ≡ true → mark_seen m i w ≡ (ok false, w)
    unfolding mark_seen
    mark_again i w seen =
        let (same, why) = laws.insert_again i (marker i w) w refl seen in
        let (e, refused, dup) = why in rw (same, refused, seen_answer) (rw (dup, is_dup_key))

    -- `EventIDsRepo` meets the laws of a deduper.
    pub event_ids_laws : DeduperLaws event_ids_repo
    unfolding mark_seen forget
    event_ids_laws = record {
      marked = laws.marked;
      mark_fresh = λ i w h.
          laws.insert_fresh i (marker i w) w refl
            (seen_answer-eq-true (m.insert_one collection_event_ids (marker i w) w).0 h);
      mark_again = mark_again;
      mark_refused = mark_refused;
      forget_ok = laws.delete_marked;
    }

    pub event_ids_laws-marked : (i : String) (w : W) → event_ids_laws.marked w i ≡ laws.marked w i
    unfolding event_ids_laws
    event_ids_laws-marked i w = refl
