-- ===== src/Rbac/Cache/Concurrent/Laws.antt =====
-- How stale the permissions can be that lib/rbac/cache.go answers with.
use mathlib.Core.Path.{subst}
use quickbite_analytics_serv.Base.{
  String, ◌≡◌, refl, true, inl, inr, Bool-cases, Option, none, some, List, [], ◌∷◌, ◌++◌, str_eq,
  eq_iff, All, All-append, arith,
}
use quickbite_analytics_serv.Base.Int.{ℤ, pos, ◌+ℤ◌, ◌≤ℤ◌, ltb_ℤ, int_laws}
use quickbite_analytics_serv.Rbac.Cache.{Entry, Settings, live, put}
use quickbite_analytics_serv.Rbac.Cache.Concurrent.{Phase, Call, System, Step, Reachable, Answers}

pub All-split :
    {A : Type 0} (P : A → Type 0) (xs : List A) (y : A) (ys : List A)
    → All P (xs ++ y ∷ ys)
    → All P xs × (P y) × All P ys
All-split P [] y ys h = (tt, h.0, h.1)
All-split P (x ∷ xs) y ys h = let (hxs, hy, hys) = All-split P xs y ys h.1 in ((h.0, hxs), hy, hys)

pub All-mono :
    {A : Type 0} (P Q : A → Type 0) (xs : List A) → ((x : A) → P x → Q x) → All P xs → All Q xs
All-mono P Q [] f h = tt
All-mono P Q (x ∷ xs) f h = (f x h.0, All-mono P Q xs f h.1)

pub ≤ℤ-trans : (a b c : ℤ) → a ≤ℤ b → b ≤ℤ c → a ≤ℤ c
≤ℤ-trans a b c h k = omega (arith, h, k)

ltb_lt : (a b : ℤ) → ltb_ℤ a b ≡ true → a +ℤ pos 1 ≤ℤ b
unfolding ◌+ℤ◌
ltb_lt a b h = ground arith

module _ {W : Type 0} (settings : Settings W) (core : ℤ → String → List String) where
  -- Core answered so at a time that is past, after `from`.
  abbrev pub AnsweredSince : ℤ → ℤ → String → List String → Type 0
  AnsweredSince from now role perms = (t : ℤ) × (from ≤ℤ t) × (t ≤ℤ now) × (perms ≡ core t role)

  abbrev PhaseOk : ℤ → String → ℤ → Phase → Type 0
  PhaseOk now role started Phase.begun = Unit {0}
  PhaseOk now role started Phase.asking = Unit {0}
  PhaseOk now role started (Phase.answered perms) = AnsweredSince started now role perms

  abbrev CallOk : ℤ → Call → Type 0
  CallOk now c = (c.started ≤ℤ now) × PhaseOk now c.role c.started c.phase

  -- An entry expires within the time to live of an answer of core.
  abbrev EntryOk : ℤ → String → Entry → Type 0
  EntryOk now role e =
      (t : ℤ) × (t ≤ℤ now) × (e.expires_at ≤ℤ t +ℤ settings.ttl) × (e.perms ≡ core t role)

  abbrev EntriesOk : ℤ → (String → Option Entry) → Type 0
  EntriesOk now entries = (role : String) (e : Entry) → entries role ≡ some e → EntryOk now role e

  abbrev Invariant : System → Type 0
  Invariant s = EntriesOk s.now s.entries × All (CallOk s.now) s.calls

  CallOk-later : (now t : ℤ) → now ≤ℤ t → (c : Call) → CallOk now c → CallOk t c
  CallOk-later now t h c (started, ok) =
      (≤ℤ-trans c.started now t started h, phase_later c.phase ok)
    where
      phase_later : (p : Phase) → PhaseOk now c.role c.started p → PhaseOk t c.role c.started p
      phase_later Phase.begun ok = tt
      phase_later Phase.asking ok = tt
      phase_later (Phase.answered perms) (u, since, until, same) =
          (u, since, ≤ℤ-trans u now t until h, same)

  put-EntriesOk :
      (now : ℤ) (role : String) (o : Option Entry) (entries : String → Option Entry)
      → ((e : Entry) → o ≡ some e → EntryOk now role e)
      → EntriesOk now entries
      → EntriesOk now (put role o entries)
  put-EntriesOk now role o entries new old r e found = elim (Bool-cases (str_eq role r)) [
    | inl same ↦
        let given : EntryOk now role e = new e (rw same at found) in
        rw ((eq_iff role r).0 same) at given
    | inr other ↦ old r e (rw other at found)
  ]

  abbrev stored : List String → ℤ → Entry
  stored perms started = record { perms = perms; expires_at = started +ℤ settings.ttl }

  stored_ok :
      (now : ℤ) (role : String) (perms : List String) (started t : ℤ)
      → started ≤ℤ t
      → t ≤ℤ now
      → perms ≡ core t role
      → (e : Entry) → some (stored perms started) ≡ some e
      → EntryOk now role e
  stored_ok now role perms started t since until same e found =
      let stored_is : stored perms started ≡ e = cc in
      let ok : EntryOk now role (stored perms started) =
        (t, until, omega (int_laws, since), same) in
      subst (λ x. EntryOk now role x) stored_is ok

  Step-Invariant : {s t : System} → Step settings core s t → Invariant s → Invariant t
  Step-Invariant (Step.passes s t h) (entries, calls) = (
    λ role e found.
        let (u, until, expires, same) = entries role e found in
        (u, ≤ℤ-trans u s.now t until h, expires, same),
    All-mono (CallOk s.now) (CallOk t) s.calls (CallOk-later s.now t h) calls,
  )
  Step-Invariant (Step.begins s role) (entries, calls) = (entries, ((omega arith, tt), calls))
  Step-Invariant (Step.hits s before after role started e live_e) (entries, calls) =
      let (bs, _, rest) = All-split (CallOk s.now) before _ after calls in
      (entries, All-append (CallOk s.now) before after bs rest)
  Step-Invariant (Step.misses s before after role started none_live) (entries, calls) =
      let (bs, (began, _), rest) = All-split (CallOk s.now) before _ after calls in
      (entries, All-append (CallOk s.now) before _ bs ((began, tt), rest))
  Step-Invariant (Step.answers s before after role started) (entries, calls) =
      let (bs, (began, _), rest) = All-split (CallOk s.now) before _ after calls in
      (
        entries,
        All-append (CallOk s.now) before _ bs ((began, (s.now, began, omega arith, refl)), rest),
      )
  Step-Invariant (Step.fails s before after role started) (entries, calls) =
      let (bs, _, rest) = All-split (CallOk s.now) before _ after calls in
      (entries, All-append (CallOk s.now) before after bs rest)
  Step-Invariant (Step.stores s before after role started perms) (entries, calls) =
      let (bs, (began, (t, since, until, same)), rest) =
        All-split (CallOk s.now) before _ after calls in
      (
        put-EntriesOk s.now role (some (stored perms started)) s.entries
            (stored_ok s.now role perms started t since until same) entries,
        All-append (CallOk s.now) before after bs rest,
      )
  Step-Invariant (Step.invalidates s role) (entries, calls) =
      (put-EntriesOk s.now role none s.entries (λ e impossible. cc) entries, calls)

  Reachable-Invariant : {s : System} → Reachable settings core s → Invariant s
  Reachable-Invariant (Reachable.starts t) = (λ role e found. cc, tt)
  Reachable-Invariant (Reachable.later r step) = Step-Invariant step (Reachable-Invariant r)

  pub live_found :
      (o : Option Entry) (now : ℤ) (e : Entry)
      → live settings o now ≡ some e
      → (o ≡ some e) × (ltb_ℤ now e.expires_at ≡ true)
  live_found none now e h = cc
  live_found (some x) now e h = elim (Bool-cases (ltb_ℤ now x.expires_at)) [
    | inl in_time ↦
        let same : some x ≡ some e = rw in_time at h in
        let same_entry : x ≡ e = cc in (same, rw same_entry at in_time)
    | inr late ↦ let impossible : none ≡ some e = rw late at h in cc
  ]

  -- However calls, invalidations and changes in core interleave, the permissions that a call of
  -- `GetForRole` answers are those that core had for the role at a time that is past and less than the
  -- time to live before the call began, or later, if the time to live is positive.
  pub Answers-AnsweredSince :
      (s : System) (before after : List Call) (c : Call) (perms : List String)
      → pos 1 ≤ℤ settings.ttl
      → Reachable settings core s
      → s.calls ≡ before ++ c ∷ after
      → Answers settings core s c perms
      → (t : ℤ) × (c.started +ℤ pos 1 ≤ℤ t +ℤ settings.ttl) × (t ≤ℤ s.now) × (perms ≡ core t c.role)
  Answers-AnsweredSince s before after c perms positive r listed answer = by_way answer
    where
      in_calls : Invariant s → CallOk s.now c
      in_calls (_, calls) =
          let listed_calls : All (CallOk s.now) (before ++ c ∷ after) = rw listed at calls in
          let (_, ok, _) = All-split (CallOk s.now) before c after listed_calls in ok

      by_way :
          {ps : List String}
          → Answers settings core s c ps
          → (t : ℤ) × (c.started +ℤ pos 1 ≤ℤ t +ℤ settings.ttl)
            × (t ≤ℤ s.now)
            × (ps ≡ core t c.role)
      by_way (Answers.from_cache e began found) =
          let (there, in_time) = live_found (s.entries c.role) c.started e found in
          let (t, until, expires, same) = (Reachable-Invariant r).0 c.role e there in
          (t, omega (int_laws, ltb_lt c.started e.expires_at in_time, expires), until, same)
      by_way (Answers.from_core ps came) =
          let (began, ok) = in_calls (Reachable-Invariant r) in
          let (t, since, until, same) : AnsweredSince c.started s.now c.role ps = rw came at ok in
          (t, omega (int_laws, since, positive), until, same)
