-- ===== src/Boot/Correlation/Laws.antt =====
-- The id and the status of a request in lib/middleware/correlation.go.
use quickbite_analytics_serv.Base.{
  ℕ, String, ◌≡◌, refl, true, false, ◌⊎◌, inl, inr, Bool-cases, some, List, [], ◌∷◌, map, str_eq,
}
use quickbite_analytics_serv.Rbac.Guards.{Request, Handler}
use quickbite_analytics_serv.Boot.Correlation.{
  Outside, identified, correlation, WriterCall, new_status_writer, write, write_all,
}

module _ {S D : Type 0} (o : Outside S) (next : String → Handler S D) (r : Request) (s : S) where
  -- The id that a request brought is kept, and a request that brought none gets a new one.
  abbrev pub Identified : Type 0
  Identified =
      ((str_eq (r.header "x-correlation-id") "" ≡ false)
        × (correlation o next r s ≡ identified o (r.header "x-correlation-id") next r s))
      ⊎ ((str_eq (r.header "x-correlation-id") "" ≡ true)
          × (correlation o next r s ≡ identified o (o.new_uuid s).0 next r (o.new_uuid s).1))

  pub correlation-Identified : Identified
  unfolding correlation
  correlation-Identified = elim (Bool-cases (str_eq (r.header "x-correlation-id") "")) [
    | inl missing ↦ inr (missing, rw missing refl)
    | inr given ↦ inl (given, rw given refl)
  ]

-- Writes of the body change neither status once one was sent.
bodies :
    (n : List (Unit {0})) (status sent : ℕ)
    → write_all (map (λ _. WriterCall.write_body) n) (record { status = status; sent = some sent })
      ≡ record { status = status; sent = some sent }
unfolding write_all write
bodies [] status sent = refl
bodies (_ ∷ n) status sent = bodies n status sent

-- The status that is logged is the one that was sent, for a handler that sets its status first, and
-- for one that sets none and writes a body.
pub status_writer-logged :
    (code : ℕ) (n : List (Unit {0}))
    → (write_all
          (WriterCall.write_header code ∷ map (λ _. WriterCall.write_body) n)
          new_status_writer
        ≡ record { status = code; sent = some code })
      × (write_all (WriterCall.write_body ∷ map (λ _. WriterCall.write_body) n) new_status_writer
          ≡ record { status = 200; sent = some 200 })
unfolding write_all write
status_writer-logged code n = (bodies n code code, bodies n 200 200)
