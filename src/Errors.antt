-- ===== src/Errors.antt =====
-- lib/errors and lib/http: Go's error values, `AppError`, and the envelopes that reach the wire.
-- An error is the chain that `errors.As` walks by `Unwrap`; texts made by `Sprintf` are left out.
use quickbite_analytics_serv.Base.{
  ℕ, String, ◌≡◌, refl, ◌⊎◌, inl, inr, Option, none, some, Bool, true, false,
}

pub record AppError : Type 0 where
  pub code : String
  pub status : ℕ
  pub message : String

pub data Err : Type 0 where
  -- an error with nothing below it, such as one of a driver or a parser
  plain : String → Err
  -- `fmt.Errorf("…: %w", err)`
  wrap : String → Err → Err
  app : AppError → Err
  -- `e.WithCause(cause)`
  app_cause : AppError → Err → Err
  -- `coreevents.Permanent(err)`
  permanent : Err → Err

-- `errors.As(err, &ae)`: the first AppError of the chain.
pub as_app : Err → Option AppError
as_app (plain _) = none
as_app (wrap _ e) = as_app e
as_app (app a) = some a
as_app (app_cause a _) = some a
as_app (permanent e) = as_app e

-- `coreevents.IsPermanent`
unfoldable pub is_permanent : Err → Bool
is_permanent (plain _) = false
is_permanent (wrap _ e) = is_permanent e
is_permanent (app _) = false
is_permanent (app_cause _ e) = is_permanent e
is_permanent (permanent _) = true

-- What a request answers: the data of `SendSuccess`, or the code and message of `SendError`.
pub data Body (D : Type 0) : Type 0 where
  success : D → Body D
  failure : String → String → Body D

pub record Response (D : Type 0) : Type 0 where
  pub status : ℕ
  pub body : Body D

abbrev pub send_success : {D : Type 0} → ℕ → D → Response D
send_success status d = record { status = status; body = success d }

abbrev pub send_error : {D : Type 0} → ℕ → String → String → Response D
send_error status code message = record { status = status; body = failure code message }

-- `renderError`
abbrev pub render_found : {D : Type 0} → Option AppError → Response D
render_found (some a) = send_error a.status a.code a.message
render_found none = send_error 500 "INTERNAL_ERROR" "internal server error"

unfoldable pub render_error : {D : Type 0} → Err → Response D
unfolding as_app
render_error e = render_found (as_app e)

-- A result of a Go function that returns `(A, error)`.
pub data Result (A : Type 0) : Type 0 where
  ok : A → Result A
  err : Err → Result A

infixl 5 ◌>>=◌
abbrev pub ◌>>=◌ : {A B : Type 0} → Result A → (A → Result B) → Result B
err failed >>= rest = err failed
ok got >>= rest = rest got

abbrev pub map_result : {A B : Type 0} → (A → B) → Result A → Result B
map_result f (ok a) = ok (f a)
map_result f (err e) = err e

-- `Wrap`: a handler's error is rendered, and its success has been written with 200.
unfoldable pub wrap_handler : {D : Type 0} → Result D → Response D
unfolding render_error
wrap_handler (ok d) = send_success 200 d
wrap_handler (err e) = render_error e

-- A call that returned in the end has returned at its first step, too.
pub >>=-eq-ok :
    {A B : Type 0} {done : B} (first : Result A) (rest : A → Result B)
    → (first >>= rest) ≡ ok done
    → (got : A) × (rest got ≡ ok done) × (first ≡ ok got)
>>=-eq-ok (err failed) rest same = cc
>>=-eq-ok (ok got) rest same = (got, same, refl)

-- A split that keeps its equation.
pub Result-cases : {A : Type 0} (r : Result A) → ((a : A) × (r ≡ ok a)) ⊎ ((e : Err) × (r ≡ err e))
Result-cases (ok a) = inl (a, refl)
Result-cases (err e) = inr (e, refl)
