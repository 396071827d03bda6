-- ===== src/Rbac/Cache/Concurrent/Invalidated.antt =====
-- The event of lib/coreevents/rbac_handlers.go between the steps of the calls of lib/rbac/cache.go:
-- what the calls that come to an end after it answer.
use quickbite_analytics_serv.Base.{
  String, ◌≡◌, refl, sym, ap, ◌∙◌, true, false, ◌⊎◌, inl, inr, Bool-cases, Option, none, some, List,
  ◌∷◌, ◌++◌, str_eq, eq_iff, eq_refl, All, All-append, arith,
}
use quickbite_analytics_serv.Base.Int.{ℤ, ◌+ℤ◌, ◌≤ℤ◌}
use quickbite_analytics_serv.Errors.{Result, ok}
use quickbite_analytics_serv.Events.Payloads.{Envelope}
use quickbite_analytics_serv.Rbac.Cache.{Entry, Settings, CacheWorld, put, invalidate}
use quickbite_analytics_serv.Rbac.Cache.Concurrent.{Phase, Call, System, Step, Answers}
use quickbite_analytics_serv.Rbac.Cache.Concurrent.Laws.{All-split, All-mono, ≤ℤ-trans, live_found}
use quickbite_analytics_serv.Rbac.Changes.{RbacPermissionsChangedPayload, permissions_changed}

module _ {W : Type 0} (settings : Settings W) (core : ℤ → String → List String) where
  -- The steps that led from one system to another.
  pub data Run (s : System) : System → Type 0 where
    stays : Run s s
    onward : {t u : System} → Run s t → Step settings core t u → Run s u

  module _ (role : String) where
    -- The call is for another role, or core has not answered it yet.
    abbrev pub Unanswered : Call → Type 0
    Unanswered c =
        (str_eq c.role role ≡ false) ⊎ ((c.phase ≡ Phase.begun) ⊎ (c.phase ≡ Phase.asking))

    -- Core answered so at a time from `start` to `now`.
    abbrev pub AnsweredBetween : ℤ → ℤ → List String → Type 0
    AnsweredBetween start now perms = (t : ℤ) × (start ≤ℤ t) × (t ≤ℤ now) × (perms ≡ core t role)

    module _ (start : ℤ) where
      abbrev PhaseOk : ℤ → Phase → Type 0
      PhaseOk now Phase.begun = Unit {0}
      PhaseOk now Phase.asking = Unit {0}
      PhaseOk now (Phase.answered perms) = AnsweredBetween start now perms

      abbrev CallOk : ℤ → Call → Type 0
      CallOk now c = (str_eq c.role role ≡ false) ⊎ ((c.role ≡ role) × PhaseOk now c.phase)

      abbrev EntriesOk : ℤ → (String → Option Entry) → Type 0
      EntriesOk now entries =
          (e : Entry) → entries role ≡ some e → AnsweredBetween start now e.perms

      abbrev Invariant : System → Type 0
      Invariant s = (start ≤ℤ s.now) × EntriesOk s.now s.entries × All (CallOk s.now) s.calls

      AnsweredBetween-later :
          (now u : ℤ) (perms : List String)
          → now ≤ℤ u
          → AnsweredBetween start now perms
          → AnsweredBetween start u perms
      AnsweredBetween-later now u perms h (t, since, until, same) =
          (t, since, ≤ℤ-trans t now u until h, same)

      CallOk-later : (now u : ℤ) → now ≤ℤ u → (c : Call) → CallOk now c → CallOk u c
      CallOk-later now u h c (inl elsewhere) = inl elsewhere
      CallOk-later now u h c (inr (same, held)) = inr (same, phase_later c.phase held)
        where
          phase_later : (p : Phase) → PhaseOk now p → PhaseOk u p
          phase_later Phase.begun held = tt
          phase_later Phase.asking held = tt
          phase_later (Phase.answered perms) held = AnsweredBetween-later now u perms h held

      -- A call of any role with no answer yet.
      fresh-CallOk :
          (now started : ℤ) (r : String) (p : Phase)
          → PhaseOk now p
          → CallOk now (record { role = r; started = started; phase = p })
      fresh-CallOk now started r p held = elim (Bool-cases (str_eq r role)) [
        | inl same ↦ inr ((eq_iff r role).0 same, held)
        | inr other ↦ inl other
      ]

      put-EntriesOk :
          (now : ℤ) (r : String) (o : Option Entry) (entries : String → Option Entry)
          → (str_eq r role ≡ false) ⊎ ((e : Entry) → o ≡ some e → AnsweredBetween start now e.perms)
          → EntriesOk now entries
          → EntriesOk now (put r o entries)
      put-EntriesOk now r o entries new old e found = elim (Bool-cases (str_eq r role)) [
        | inl same ↦ elim new [
          | inl other ↦ let impossible = sym same ∙ other in cc
          | inr given ↦ given e (rw same at found)
        ]
        | inr other ↦ old e (rw other at found)
      ]

      stored-ok :
          (now expires : ℤ) (r : String) (perms : List String)
          → CallOk now (record { role = r; started = now; phase = Phase.answered perms })
          → (str_eq r role ≡ false)
            ⊎ ((e : Entry)
                → some (record { perms = perms; expires_at = expires }) ≡ some e
                → AnsweredBetween start now e.perms)
      stored-ok now expires r perms (inl other) = inl other
      stored-ok now expires r perms (inr (_, (t, since, until, same))) =
          inr
            λ e found. let perms_eq : perms ≡ e.perms = cc in (t, since, until, sym perms_eq ∙ same)

      Step-Invariant : {s t : System} → Step settings core s t → Invariant s → Invariant t
      Step-Invariant (Step.passes s u h) (since, entries, calls) = (
        ≤ℤ-trans start s.now u since h,
        λ e found. AnsweredBetween-later s.now u e.perms h (entries e found),
        All-mono (CallOk s.now) (CallOk u) s.calls (CallOk-later s.now u h) calls,
      )
      Step-Invariant (Step.begins s r) (since, entries, calls) =
          (since, entries, (fresh-CallOk s.now s.now r Phase.begun tt, calls))
      Step-Invariant (Step.hits s before after r started e live_e) (since, entries, calls) =
          let (bs, _, rest) = All-split (CallOk s.now) before _ after calls in
          (since, entries, All-append (CallOk s.now) before after bs rest)
      Step-Invariant (Step.misses s before after r started none_live) (since, entries, calls) =
          let (bs, _, rest) = All-split (CallOk s.now) before _ after calls in
          (
            since,
            entries,
            All-append (CallOk s.now) before _ bs
                (fresh-CallOk s.now started r Phase.asking tt, rest),
          )
      Step-Invariant (Step.answers s before after r started) (since, entries, calls) =
          let (bs, _, rest) = All-split (CallOk s.now) before _ after calls in
          (since, entries, All-append (CallOk s.now) before _ bs (now_answered, rest))
        where
          now_answered :
              CallOk s.now
                (record { role = r; started = started; phase = Phase.answered (core s.now r) })
          now_answered = elim (Bool-cases (str_eq r role)) [
            | inl same ↦
                let this = (eq_iff r role).0 same in
                inr (this, (s.now, since, omega arith, ap (core s.now) this))
            | inr other ↦ inl other
          ]
      Step-Invariant (Step.fails s before after r started) (since, entries, calls) =
          let (bs, _, rest) = All-split (CallOk s.now) before _ after calls in
          (since, entries, All-append (CallOk s.now) before after bs rest)
      Step-Invariant (Step.stores s before after r started perms) (since, entries, calls) =
          let (bs, answered, rest) = All-split (CallOk s.now) before _ after calls in
          (
            since,
            put-EntriesOk s.now r _ s.entries
                (stored-ok s.now (started +ℤ settings.ttl) r perms answered) entries,
            All-append (CallOk s.now) before after bs rest,
          )
      Step-Invariant (Step.invalidates s r) (since, entries, calls) =
          (since, put-EntriesOk s.now r none s.entries (inr λ e impossible. cc) entries, calls)

      Run-Invariant : {s t : System} → Run s t → Invariant s → Invariant t
      Run-Invariant Run.stays h = h
      Run-Invariant (Run.onward r step) h = Step-Invariant step (Run-Invariant r h)

      Unanswered-CallOk : (now : ℤ) (c : Call) → Unanswered c → CallOk now c
      Unanswered-CallOk now c (inl other) = inl other
      Unanswered-CallOk now c (inr waiting) = elim (Bool-cases (str_eq c.role role)) [
        | inl same ↦ inr ((eq_iff c.role role).0 same, not_answered waiting)
        | inr other ↦ inl other
      ]
        where
          not_answered : (c.phase ≡ Phase.begun) ⊎ (c.phase ≡ Phase.asking) → PhaseOk now c.phase
          not_answered (inl begun) = rw begun tt
          not_answered (inr asking) = rw asking tt

  -- the system once the event was handled
  abbrev pub after_event :
      {R : Type 0} → (R → Result RbacPermissionsChangedPayload) → Envelope R → W → System → System
  after_event decode env w s = record s {
    entries =
        (permissions_changed decode env (record { entries = s.entries; world = w })).1.entries;
  }

  dropped :
      {R : Type 0} (decode : R → Result RbacPermissionsChangedPayload) (env : Envelope R)
      (p : RbacPermissionsChangedPayload) (x : CacheWorld W)
      → decode env.payload ≡ ok p
      → str_eq p.role "" ≡ false
      → (permissions_changed decode env x).1.entries p.role ≡ none
  unfolding permissions_changed invalidate
  dropped decode env p x read given = rw read (rw given (rw (eq_refl p.role) refl))

  -- Let the event of a named role be handled when no call for the role holds an answer of core that it
  -- has yet to store. Then, however calls, other invalidations and changes in core go on, a call for
  -- the role that answers afterwards answers what core had for it at or after the event.
  pub Answers-after_event :
      {R : Type 0} (decode : R → Result RbacPermissionsChangedPayload) (env : Envelope R)
      (p : RbacPermissionsChangedPayload) (w : W) (s u : System) (before after : List Call)
      (c : Call) (perms : List String)
      → decode env.payload ≡ ok p
      → str_eq p.role "" ≡ false
      → All (Unanswered p.role) s.calls
      → Run (after_event decode env w s) u
      → u.calls ≡ before ++ c ∷ after
      → c.role ≡ p.role
      → Answers settings core u c perms
      → AnsweredBetween p.role s.now u.now perms
  Answers-after_event decode env p w s u before after c perms read given unanswered run listed this
        answer =
      answered_by answer
    where
      holds : Invariant p.role s.now u
      holds = Run-Invariant p.role s.now run (
        omega arith,
        λ e found.
            let impossible : none ≡ some e =
              sym (dropped decode env p (record { entries = s.entries; world = w }) read given)
              ∙ found in
            cc,
        All-mono (Unanswered p.role) (CallOk p.role s.now s.now) s.calls
            (Unanswered-CallOk p.role s.now s.now) unanswered,
      )

      call_ok : CallOk p.role s.now u.now c
      call_ok =
          let listed_calls : All (CallOk p.role s.now u.now) (before ++ c ∷ after) =
            rw listed at holds.2 in
          let (_, held, _) = All-split (CallOk p.role s.now u.now) before c after listed_calls in
          held

      from_call :
          (ps : List String)
          → c.phase ≡ Phase.answered ps
          → CallOk p.role s.now u.now c
          → AnsweredBetween p.role s.now u.now ps
      from_call ps came (inl other) =
          let impossible : false ≡ true = sym other ∙ (eq_iff c.role p.role).1 this in cc
      from_call ps came (inr (_, held)) = rw came at held

      answered_by :
          {ps : List String} → Answers settings core u c ps → AnsweredBetween p.role s.now u.now ps
      answered_by (Answers.from_cache e began found) =
          holds.1 e (rw this at (live_found settings core (u.entries c.role) c.started e found).0)
      answered_by (Answers.from_core ps came) = from_call ps came call_ok
