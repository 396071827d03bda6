-- ===== src/Rbac/Cache/Concurrent.antt =====
-- lib/rbac/cache.go with calls that interleave: `GetForRole` reads the clock, looks the role up under
-- the read lock, asks core with no lock held, and stores the answer under the write lock. Between any
-- two of these, other calls run, roles are invalidated, and core changes its mind.
pub mod Laws
pub mod Invalidated
use quickbite_analytics_serv.Base.{String, ◌≡◌, Option, none, some, List, [], ◌∷◌, ◌++◌}
use quickbite_analytics_serv.Base.Int.{ℤ, ◌+ℤ◌, ◌≤ℤ◌}
use quickbite_analytics_serv.Rbac.Cache.{Entry, Settings, live, put}

-- How far a call of `GetForRole` has come.
pub data Phase : Type 0 where
  begun : Phase
  asking : Phase
  answered : List String → Phase

-- A call, with what `time.Now()` was when it began.
pub record Call : Type 0 where
  pub role : String
  pub started : ℤ
  pub phase : Phase

pub record System : Type 0 where
  pub now : ℤ
  pub entries : String → Option Entry
  pub calls : List Call

abbrev pub empty_cache : ℤ → System
empty_cache now = record { now = now; entries = λ role. none; calls = [] }

-- `core t role` is what core answers for the role at the time `t`.
module _ {W : Type 0} (settings : Settings W) (core : ℤ → String → List String) where
  -- Steps of one call are on a call somewhere in the list of calls.
  pub data Step : System → System → Type 0 where
    passes : (s : System) (t : ℤ) → s.now ≤ℤ t → Step s (record s { now = t })
    begins :
        (s : System) (role : String)
        → Step s (record s {
          calls = record { role = role; started = s.now; phase = Phase.begun } ∷ s.calls;
        })
    -- a hit answers, and the call is over
    hits :
        (s : System) (before after : List Call) (role : String) (started : ℤ) (e : Entry)
        → live settings (s.entries role) started ≡ some e
        → Step
            (record s {
              calls =
                  before ++ record { role = role; started = started; phase = Phase.begun } ∷ after;
            })
            (record s { calls = before ++ after })
    misses :
        (s : System) (before after : List Call) (role : String) (started : ℤ)
        → live settings (s.entries role) started ≡ none
        → Step
            (record s {
              calls =
                  before ++ record { role = role; started = started; phase = Phase.begun } ∷ after;
            })
            (record s {
              calls =
                  before ++ record { role = role; started = started; phase = Phase.asking } ∷ after;
            })
    answers :
        (s : System) (before after : List Call) (role : String) (started : ℤ)
        → Step
            (record s {
              calls =
                  before ++ record { role = role; started = started; phase = Phase.asking } ∷ after;
            })
            (record s {
              calls =
                  before
                  ++ record {
                    role = role;
                    started = started;
                    phase = Phase.answered (core s.now role);
                  }
                    ∷ after;
            })
    fails :
        (s : System) (before after : List Call) (role : String) (started : ℤ)
        → Step
            (record s {
              calls =
                  before ++ record { role = role; started = started; phase = Phase.asking } ∷ after;
            })
            (record s { calls = before ++ after })
    stores :
        (s : System) (before after : List Call) (role : String) (started : ℤ) (perms : List String)
        → Step
            (record s {
              calls =
                  before
                  ++ record { role = role; started = started; phase = Phase.answered perms }
                    ∷ after;
            })
            (record s {
              entries =
                  put role
                    (some (record { perms = perms; expires_at = started +ℤ settings.ttl }))
                    s.entries;
              calls = before ++ after;
            })
    invalidates :
        (s : System) (role : String) → Step s (record s { entries = put role none s.entries })

  pub data Reachable : System → Type 0 where
    starts : (t : ℤ) → Reachable (empty_cache t)
    later : {s t : System} → Reachable s → Step s t → Reachable t

  -- What a call in a system answers: the live entry that it finds, or what core answered it.
  pub data Answers (s : System) (c : Call) : List String → Type 0 where
    from_cache :
        (e : Entry)
        → c.phase ≡ Phase.begun
        → live settings (s.entries c.role) c.started ≡ some e
        → Answers s c e.perms
    from_core : (perms : List String) → c.phase ≡ Phase.answered perms → Answers s c perms
