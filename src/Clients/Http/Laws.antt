-- ===== src/Clients/Http/Laws.antt =====
-- The number of requests of one call of pkg/httpclient/client.go.
use quickbite_analytics_serv.Base.{
  ℕ, zero, suc, ◌+◌, ◌≤◌, String, ◌≡◌, inl, inr, Bool-cases, Option, List, arith,
}
use quickbite_analytics_serv.Base.Int.{ℤ, pos, negsuc}
use quickbite_analytics_serv.Errors.{Result, ok, err}
use quickbite_analytics_serv.Clients.Http.{
  Transport, backoff, retries, attempts, on_request, do_json,
}

-- `sent` counts the requests that left.
pub record TransportLaws {W Q B : Type 0} (t : Transport W Q B) : Type 0 where
  pub sent : W → ℕ
  pub send_counted : (q : Q) (w : W) → sent (t.send q w).1 ≡ suc (sent w)
  pub sleep_keeps : (n : ℕ) (w : W) → sent (t.sleep n w) ≡ sent w

module _ {W Q B A : Type 0} (t : Transport W Q B) (decode : B → Result A)
    (laws : TransportLaws t) where
  attempts-sent :
      (q : Q) (attempt left : ℕ) (w : W)
      → laws.sent (attempts t decode q attempt left w).1 ≤ laws.sent w + suc left
  unfolding attempts
  attempts-sent q attempt zero w = omega (arith, laws.send_counted q w)
  attempts-sent q attempt (suc left) w = elim (Bool-cases (retries t decode (t.send q w).0)) [
    | inl more ↦
        rw (more, attempts)
          (omega (
            arith,
            laws.send_counted q w,
            laws.sleep_keeps (backoff attempt) (t.send q w).1,
            attempts-sent q (suc attempt) left (t.sleep (backoff attempt) (t.send q w).1),
          ))
    | inr done ↦ rw (done, attempts) (omega (arith, laws.send_counted q w))
  ]

  -- one request more than the retries, and none if these are negative
  abbrev pub allowed : ℤ → ℕ
  allowed (pos n) = suc n
  allowed (negsuc _) = 0

  -- A call sends at most one request more than its retries, and none if these are negative.
  pub do_json-sent :
      (max_retries : ℤ) (method url : String) (headers : List (String × String)) (body : Option B)
      (w : W)
      → laws.sent (do_json t decode max_retries method url headers body w).1
        ≤ laws.sent w + allowed max_retries
  unfolding do_json
  do_json-sent (negsuc _) method url headers body w = omega arith
  do_json-sent (pos max_retries) method url headers body w =
      built (t.new_request method url headers body)
    where
      built :
          (q : Result Q)
          → laws.sent (on_request t decode q max_retries w).1 ≤ laws.sent w + suc max_retries
      built (err e) = omega arith
      built (ok q) = attempts-sent q 0 max_retries w
