-- ===== src/Tests/Clients.antt =====
-- A call to core that fails with 503 each time.
use quickbite_analytics_serv.Base.{ℕ, suc, ◌≤◌, ◌+◌, refl, none, []}
use quickbite_analytics_serv.Base.Int.{pos}
use quickbite_analytics_serv.Errors.{Result, ok}
use quickbite_analytics_serv.Clients.Http.{Transport, do_json}
use quickbite_analytics_serv.Clients.Http.Laws.{TransportLaws, do_json-sent}

-- the world is the number of requests that were sent
abbrev answering : ℕ → Transport ℕ (Unit {0}) (Unit {0})
answering status = record {
  new_request = λ method url headers body. ok tt;
  send = λ q sent. (ok (record { status_code = status; body = tt }), suc sent);
  sleep = λ n sent. sent;
}

abbrev answering_laws : TransportLaws (answering 503)
answering_laws = record { sent = λ w. w; send_counted = λ q w. refl; sleep_keeps = λ n w. refl }

abbrev decode : Unit {0} → Result (Unit {0})
decode body = ok tt

do_json-sent_example :
    (do_json
      (answering 503)
      decode
      (pos 2)
      "GET"
      "http://core/api/roles/owner/permissions"
      []
      none
      0).1
    ≤ 0 + suc 2
do_json-sent_example =
    do_json-sent (answering 503) decode answering_laws (pos 2) "GET"
      "http://core/api/roles/owner/permissions" [] none 0
