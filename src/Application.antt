-- ===== src/Application.antt =====
-- The application's shell: apps/api/app/main.py. It answers requests that FastAPI accepts: the path has a
-- route, and the body is what the endpoint's schema wants.
pub mod Security
pub mod Dependencies
pub mod Routers
pub mod Access
pub mod Readiness
pub mod Failures
mod Tests
use placement_assistant.Prelude.{
  ℕ, String, Bool, true, false, Option, none, some, List, [], ◌∷◌, ◌++◌, Result, ok, err, Error,
  http, http_detail, database, integrity_error, Action, ◌>>=◌, lift, ◌==◌, if◌then◌else◌,
}
use placement_assistant.Value.{Fields}
use placement_assistant.Database.{Db, Principal}
use placement_assistant.Application.Security.{current_principal}

-- What a request brings; `has_session`: its state has dependencies with a session, which nothing in the
-- application puts there.
pub record Request : Type 0 where
  pub request_id : String
  pub token : Option String
  pub has_session : Bool

pub data Body (A : Type 0) : Type 0 where
  value : A → Body A
  -- {"error": {"code": ..., "request_id": ...}}
  error : String → String → Body A

pub record Response (A : Type 0) : Type 0 where
  pub status_code : ℕ
  pub body : Body A
  pub headers : List (String × String)

unfoldable pub codes : ℕ → String
codes status_code =
    if status_code == 400
    then "BAD_REQUEST"
    else if status_code == 401
    then "UNAUTHORIZED"
    else if status_code == 403
    then "FORBIDDEN"
    else if status_code == 404
    then "NOT_FOUND"
    else if status_code == 405
    then "METHOD_NOT_ALLOWED"
    else if status_code == 409
    then "CONFLICT"
    else "REQUEST_ERROR"

-- The headers of an HTTPException: only `current_principal` raises a 401, and it gives them.
abbrev challenge : ℕ → List (String × String)
challenge status_code = if status_code == 401 then ("WWW-Authenticate", "Bearer") ∷ [] else []

module _ {A : Type 0} (request_id : String) where
  abbrev refusal : String → ℕ → Response A
  refusal code status_code = record {
    status_code = status_code;
    body = error code request_id;
    headers = [];
  }

  unfoldable pub http_error : ℕ → String → Response A
  http_error status_code code = record (refusal code status_code) {
    headers = challenge status_code;
  }

  -- The answer to an exception: http_error, db_integrity_error, and db_programming_error for what a
  -- trigger raises; any other one reaches the middleware, which answers INTERNAL_ERROR.
  unfoldable pub exception_response : Error → Response A
  unfolding http_error codes
  exception_response (http status_code code) = http_error status_code code
  exception_response (http_detail status_code detail) = http_error status_code (codes status_code)
  exception_response integrity_error = refusal "CONFLICT" 409
  exception_response (database message) = refusal "INVALID_OPERATION" 400
  exception_response _ = refusal "INTERNAL_ERROR" 500

  abbrev pub response_of : ℕ → Result A → Response A
  response_of status_code (ok a) = record {
    status_code = status_code;
    body = value a;
    headers = [];
  }
  response_of status_code (err e) = exception_response e

  -- The middleware request_context.
  unfoldable pub request_context : Response A → Response A
  request_context r = record r {
    headers =
        r.headers
        ++ ("X-Request-ID", request_id)
          ∷ ("X-Content-Type-Options", "nosniff")
          ∷ ("Cache-Control", "no-store")
          ∷ [];
  }

  unfoldable pub answer : ℕ → Result A × Db → Response A × Db
  answer status_code (r, db) = (request_context (response_of status_code r), db)

module _ (decode : String → Option Fields) (uuid : String → Option ℕ) (request : Request) where
  unfoldable pub authorized : {A : Type 0} → (Principal → Action Db A) → Action Db A
  authorized handler = do
    principal ← lift (current_principal decode uuid request.token)
    handler principal

  -- An endpoint that answers with that status when its handler returns.
  unfoldable pub serve : {A : Type 0} → ℕ → (Principal → Action Db A) → Db → Response A × Db
  serve status_code handler db = answer request.request_id status_code (authorized handler db)

  unfoldable pub me : Db → Response Principal × Db
  me = serve 200 λ principal db. (ok principal, db)
