-- ===== src/Application/Security.antt =====
-- Who makes a request: apps/api/app/core/security.py.
use placement_assistant.Prelude.{
  ℕ, String, Option, none, some, Result, ok, err, Error, http_detail, str_eq, if◌then◌else◌,
}
use placement_assistant.Value.{Value, Fields, str, get}
use placement_assistant.Database.{Principal, Role}

abbrev pub unauthorized : Error
unauthorized = http_detail 401 "UNAUTHORIZED"

abbrev pub text_at : Option Value → Option String
text_at (some (str s)) = some s
text_at _ = none

abbrev pub role_of : Option String → Option Role
role_of none = none
role_of (some s) =
    if str_eq s "STUDENT"
    then some Role.student
    else if str_eq s "COORDINATOR"
    then some Role.coordinator
    else if str_eq s "ADMIN"
    then some Role.admin
    else none

abbrev pub built : Option ℕ → Option ℕ → Option Role → Option Principal
built (some sub) (some institution_id) (some role) =
    some record { sub = sub; institution_id = institution_id; role = role }
built _ _ _ = none

-- `decode` is jwt.decode with the settings' secret, audience and issuer: the claims of a token that it
-- accepts. `uuid` reads a UUID from its text.
module _ (decode : String → Option Fields) (uuid : String → Option ℕ) where
  abbrev pub uuid_at : Option String → Option ℕ
  uuid_at none = none
  uuid_at (some s) = uuid s

  -- Principal.model_validate
  unfoldable pub model_validate : Fields → Option Principal
  model_validate claims =
      built (uuid_at (text_at (get claims "sub"))) (uuid_at (text_at (get claims "institution_id")))
        (role_of (text_at (get claims "role")))

  abbrev pub validated : Option Principal → Result Principal
  validated none = err unauthorized
  validated (some p) = ok p

  abbrev pub decoded : Option Fields → Result Principal
  decoded none = err unauthorized
  decoded (some claims) = validated (model_validate claims)

  -- of the request's bearer token, if it has one
  unfoldable pub current_principal : Option String → Result Principal
  current_principal none = err unauthorized
  current_principal (some token) = decoded (decode token)
