-- ===== src/Tests/Concurrent.antt =====
-- A fetch of permissions that was under way when its role was invalidated: the withdrawn permissions
-- are stored after the invalidation, and served to the next call.
use quickbite_analytics_serv.Base.{
  String, ◌≡◌, refl, inr, none, some, List, [], ◌∷◌, if◌then◌else◌, arith,
}
use quickbite_analytics_serv.Base.Int.{ℤ, pos, ◌+ℤ◌, ◌≤ℤ◌, ltb_ℤ}
use quickbite_analytics_serv.Rbac.Cache.{Entry, put}
use quickbite_analytics_serv.Rbac.Cache.Concurrent.{
  Phase, Call, System, empty_cache, Step, Reachable, Answers,
}
use quickbite_analytics_serv.Rbac.Cache.Concurrent.Laws.{Answers-AnsweredSince}
use quickbite_analytics_serv.Rbac.Cache.Concurrent.Invalidated.{
  Run, AnsweredBetween, after_event, Answers-after_event,
}
use quickbite_analytics_serv.Tests.Memory.{empty}
use quickbite_analytics_serv.Tests.Rbac.{settings, changed, decode, envelope}

-- core withdraws the permission at the time 1
abbrev core : ℤ → String → List String
core t role = if ltb_ℤ t (pos 1) then "core:branch:read" ∷ [] else []

abbrev call : ℤ → Phase → Call
call started phase = record { role = "owner"; started = started; phase = phase }

abbrev withdrawn : Entry
withdrawn = record { perms = "core:branch:read" ∷ []; expires_at = pos 0 +ℤ settings.ttl }

-- after the fetch, the change in core and the invalidation
abbrev invalidated : System
invalidated = record {
  now = pos 1;
  entries = put "owner" none (empty_cache (pos 0)).entries;
  calls = call (pos 0) (Phase.answered ("core:branch:read" ∷ [])) ∷ [];
}

abbrev served : System
served = record {
  now = pos 1;
  entries = put "owner" (some withdrawn) invalidated.entries;
  calls = call (pos 1) Phase.begun ∷ [];
}

abbrev fetched : System
fetched = record (empty_cache (pos 0)) {
  calls = call (pos 0) (Phase.answered ("core:branch:read" ∷ [])) ∷ [];
}

fetched_reachable : Reachable settings core fetched
fetched_reachable =
    Reachable.later
      (Reachable.later
        (Reachable.later (Reachable.starts (pos 0)) (Step.begins (empty_cache (pos 0)) "owner"))
        (Step.misses (empty_cache (pos 0)) [] [] "owner" (pos 0) refl))
      (Step.answers (empty_cache (pos 0)) [] [] "owner" (pos 0))

served_reachable : Reachable settings core served
served_reachable =
    Reachable.later
      (Reachable.later
        (Reachable.later
          (Reachable.later fetched_reachable (Step.passes fetched (pos 1) (omega arith)))
          (Step.invalidates (record fetched { now = pos 1 }) "owner"))
        (Step.stores invalidated [] [] "owner" (pos 0) ("core:branch:read" ∷ [])))
      (Step.begins
        (record invalidated {
          entries = put "owner" (some withdrawn) invalidated.entries;
          calls = [];
        })
        "owner")

Answers-AnsweredSince_example :
    (t : ℤ) × (pos 1 +ℤ pos 1 ≤ℤ t +ℤ settings.ttl)
    × (t ≤ℤ pos 1)
    × ("core:branch:read" ∷ [] ≡ core t "owner")
unfolding ◌+ℤ◌
Answers-AnsweredSince_example =
    Answers-AnsweredSince settings core served [] [] (call (pos 1) Phase.begun)
      ("core:branch:read" ∷ []) (omega arith) served_reachable refl
      (Answers.from_cache withdrawn refl refl)

-- the event is handled while a call is on its way to core
abbrev asked : System
asked = record {
  now = pos 1;
  entries = put "owner" (some withdrawn) (empty_cache (pos 0)).entries;
  calls = call (pos 0) Phase.asking ∷ [];
}

abbrev answered : System
answered = record (after_event settings core decode envelope empty asked) {
  calls = call (pos 0) (Phase.answered (core (pos 1) "owner")) ∷ [];
}

asked_then_answered :
    Run settings core (after_event settings core decode envelope empty asked) answered
asked_then_answered =
    Run.onward Run.stays
      (Step.answers (after_event settings core decode envelope empty asked) [] [] "owner" (pos 0))

Answers-after_event_example :
    AnsweredBetween settings core "owner" (pos 1) (pos 1) (core (pos 1) "owner")
Answers-after_event_example =
    Answers-after_event settings core decode envelope changed empty asked answered [] []
      (call (pos 0) (Phase.answered (core (pos 1) "owner"))) (core (pos 1) "owner") refl refl
      (inr (inr refl), tt) asked_then_answered refl refl
      (Answers.from_core (core (pos 1) "owner") refl)
