-- ===== src/Boot/Correlation.antt =====
-- lib/middleware/correlation.go, with the part of lib/appcontext and lib/logger that it uses: the id
-- of a request, and the line that is logged for it.
pub mod Laws
use quickbite_analytics_serv.Base.{
  ℕ, String, Option, none, some, List, [], ◌∷◌, str_eq, if◌then◌else◌,
}
use quickbite_analytics_serv.Errors.{Response}
use quickbite_analytics_serv.Rbac.Guards.{Request, Handler}

-- A response with the header that the middleware sets.
pub record Reply (D : Type 0) : Type 0 where
  pub correlation_id : String
  pub response : Response D

-- The fields of an access log line, less its time; the id is that of the request's logger.
pub record AccessLine : Type 0 where
  pub correlation_id : String
  pub method : String
  pub path : String
  pub status : ℕ

-- `uuid.NewString`, and the logger's `Info`
pub record Outside (S : Type 0) : Type 0 where
  pub new_uuid : S → String × S
  pub info : AccessLine → S → S

module _ {S D : Type 0} (o : Outside S) where
  -- The id goes to the response, and on the context to the next handler.
  abbrev pub identified : String → (String → Handler S D) → Request → S → Reply D × S
  identified id next r s =
      let (resp, s') = next id r s in (record { correlation_id = id; response = resp }, s')

  unfoldable pub correlation : (String → Handler S D) → Request → S → Reply D × S
  correlation next r s =
      if str_eq (r.header "x-correlation-id") ""
      then (let (id, s') = o.new_uuid s in identified id next r s')
      else identified (r.header "x-correlation-id") next r s

  -- `AccessLog`; the status is the one that the handler answered with.
  unfoldable pub access_log : String → String → Handler S D → String → Handler S D
  access_log method path next id r s =
      let (resp, s') = next r s in
      (
        resp,
        o.info (record { correlation_id = id; method = method; path = path; status = resp.status })
            s',
      )

-- What a handler does with its `http.ResponseWriter`.
pub data WriterCall : Type 0 where
  write_header : ℕ → WriterCall
  write_body : WriterCall

-- `statusWriter` over the writer of net/http, which sends the first status that it is given, and 200
-- where the body comes first.
pub record StatusWriter : Type 0 where
  pub status : ℕ
  pub sent : Option ℕ

abbrev first_status : Option ℕ → ℕ → Option ℕ
first_status none code = some code
first_status (some sent) code = some sent

abbrev pub new_status_writer : StatusWriter
new_status_writer = record { status = 200; sent = none }

unfoldable pub write : WriterCall → StatusWriter → StatusWriter
write (WriterCall.write_header code) w = record { status = code; sent = first_status w.sent code }
write WriterCall.write_body w = record w { sent = first_status w.sent 200 }

unfoldable pub write_all : List WriterCall → StatusWriter → StatusWriter
unfolding write
write_all [] w = w
write_all (call ∷ calls) w = write_all calls (write call w)
