-- ===== src/Repository/EventIds.antt =====
-- app/analytics/repository/event_ids.repo.go: the markers of the events that were seen.
use quickbite_analytics_serv.Base.{ℕ, String, Bool, true, false, List, [], ◌∷◌, ◌==◌, if◌then◌else◌}
use quickbite_analytics_serv.Errors.{Err, Result, ok, err}
use quickbite_analytics_serv.Exec.{Exec}
use quickbite_analytics_serv.Mongo.{Mongo, str, time, is}
use quickbite_analytics_serv.Repository.Indexes.{collection_event_ids as collection}

module _ {W : Type 0} (m : Mongo W) where
  unfoldable pub has_dup_code : List ℕ → Bool
  has_dup_code [] = false
  has_dup_code (code ∷ codes) =
      let rest = has_dup_code codes in if code == 11000 then true else rest

  -- `isDupKey`
  unfoldable pub is_dup_key : Err → Bool
  unfolding has_dup_code
  is_dup_key e = has_dup_code (m.write_errors e)

  -- what `MarkSeen` makes of the answer to its insert
  unfoldable pub seen_answer : Result (Unit {0}) → Result Bool
  unfolding is_dup_key
  seen_answer (ok _) = ok true
  seen_answer (err e) = if is_dup_key e then ok false else err e

  unfoldable pub mark_seen : String → Exec W Bool
  unfolding seen_answer
  mark_seen event_id w =
      let (answer, w') =
        m.insert_one collection (("event_id", str event_id) ∷ ("received_at", time (m.now w)) ∷ [])
          w in
      (seen_answer answer, w')

  unfoldable pub forget : String → Exec W (Unit {0})
  forget event_id = m.delete_one collection (("event_id", is (str event_id)) ∷ [])
