-- ===== src/Clients/Http.antt =====
-- pkg/httpclient/client.go: one JSON call, retried on a transport error or a 5xx.
pub mod Laws
use quickbite_analytics_serv.Base.{
  ℕ, zero, suc, ◌*◌, ◌^◌, String, Bool, leb, ltb, ◌==◌, Option, none, some, List, if◌then◌else◌,
}
use quickbite_analytics_serv.Base.Int.{ℤ, pos, negsuc, eqb_ℤ}
use quickbite_analytics_serv.Errors.{Err, plain, wrap, Result, ok, err}
use quickbite_analytics_serv.Exec.{Exec}

-- `http.Response`; `B` is the bytes of a body.
pub record HttpResponse (B : Type 0) : Type 0 where
  pub status_code : ℕ
  pub body : B

-- `net/http` and `time`: `Q` is a request that was built.
pub record Transport (W Q B : Type 0) : Type 0 where
  pub new_request : String → String → List (String × String) → Option B → Result Q
  pub send : Q → Exec W (HttpResponse B)
  pub sleep : ℕ → W → W

-- `New` replaces 0 by 2.
unfoldable pub max_retries_of : ℤ → ℤ
max_retries_of max_retries = if eqb_ℤ max_retries (pos 0) then pos 2 else max_retries

-- With a negative number of retries the loop makes no attempt, and Go panics at the body of no
-- response.
abbrev pub nil_response : Err
nil_response = plain "runtime error: invalid memory address or nil pointer dereference"

-- in milliseconds
unfoldable pub backoff : ℕ → ℕ
backoff attempt = 100 * 2 ^ attempt

module _ {W Q B A : Type 0} (t : Transport W Q B) (decode : B → Result A) where
  abbrev decoded : ℕ → Result A → Result (ℕ × Option A)
  decoded status (err e) = err (wrap "decode response" e)
  decoded status (ok a) = ok (status, some a)

  -- after the loop: the body is decoded only below 400. The status that comes beside an error is
  -- read by no caller.
  unfoldable pub finish : HttpResponse B → Result (ℕ × Option A)
  finish resp =
      if ltb resp.status_code 400
      then decoded resp.status_code (decode resp.body)
      else ok (resp.status_code, none)

  -- the loop's body with no attempt left, and with one
  unfoldable pub last_answer : Result (HttpResponse B) → Result (ℕ × Option A)
  unfolding finish
  last_answer (err e) = err (wrap "http do" e)
  last_answer (ok resp) = finish resp

  -- whether the loop goes on when an attempt is left
  unfoldable pub retries : Result (HttpResponse B) → Bool
  retries (err e) = Bool.true
  retries (ok resp) = leb 500 resp.status_code

  -- `left` is the number of attempts after this one.
  unfoldable pub attempts : Q → ℕ → ℕ → Exec W (ℕ × Option A)
  unfolding last_answer retries backoff
  attempts q attempt zero w = let (answer, w') = t.send q w in (last_answer answer, w')
  attempts q attempt (suc left) w =
      let (answer, w') = t.send q w in
      let again = attempts q (suc attempt) left (t.sleep (backoff attempt) w') in
      if retries answer then again else (last_answer answer, w')

  abbrev pub on_request : Result Q → ℕ → Exec W (ℕ × Option A)
  on_request (err e) max_retries w = (err (wrap "build request" e), w)
  on_request (ok q) max_retries w = attempts q 0 max_retries w

  -- `DoJSON` with a value to decode into; `body` is the marshalled body, if there is one.
  unfoldable pub do_json :
      ℤ → String → String → List (String × String) → Option B → Exec W (ℕ × Option A)
  unfolding attempts
  do_json (pos max_retries) method url headers body w =
      on_request (t.new_request method url headers body) max_retries w
  do_json (negsuc _) method url headers body w = (err nil_response, w)
