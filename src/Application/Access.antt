-- ===== src/Application/Access.antt =====
-- Who a request is answered for, in apps/api/app/core/security.py and main.py.
use placement_assistant.Prelude.{
  ℕ, String, Option, none, some, ok, err, Error, Action, ◌≡◌, refl, ap, sym, ◌⊎◌, inl, inr, arith,
  Option-cases, Result-cases, eq_iff,
}
use placement_assistant.Value.{Value, Fields, str, get}
use placement_assistant.Database.{Db, Principal, Role}
use placement_assistant.Application.Security.{
  unauthorized, text_at, role_of, built, uuid_at, model_validate, validated, decoded,
  current_principal,
}
use placement_assistant.Application.{
  Request, Response, error, answer, http_error, codes, authorized, serve, request_context,
  exception_response,
}

text_value : Option String → Option Value
text_value none = none
text_value (some s) = some (str s)

text_at-some : (v : Option Value) (s : String) → text_at v ≡ some s → v ≡ some (str s)
unfolding text_value
text_at-some (some (str t)) s h = ap (λ o. text_value o) h
text_at-some _ s h = absurd (cc h)

abbrev pub role_text : Role → String
role_text Role.student = "STUDENT"
role_text Role.coordinator = "COORDINATOR"
role_text Role.admin = "ADMIN"

role_of-some : (o : Option String) (r : Role) → role_of o ≡ some r → o ≡ some (role_text r)
role_of-some none r h = absurd (cc h)
role_of-some (some s) r h =
    ap some (ground (arith, eq_iff s "STUDENT", eq_iff s "COORDINATOR", eq_iff s "ADMIN"))

built-some :
    (sub institution_id : Option ℕ) (role : Option Role) (p : Principal)
    → built sub institution_id role ≡ some p
    → (sub ≡ some p.sub) × (institution_id ≡ some p.institution_id) × (role ≡ some p.role)
built-some (some sub) (some institution_id) (some role) p h = ground arith
built-some _ _ _ p h = absurd (cc h)

module _ (decode : String → Option Fields) (uuid : String → Option ℕ) where
  -- A claim that names that id.
  pub record Names (claims : Fields) (key : String) (id : ℕ) : Type 0 where
    pub text : String
    pub claim : get claims key ≡ some (str text)
    pub read : uuid text ≡ some id

  -- The token is accepted, and its claims are the principal.
  pub record IsVerified (token : Option String) (p : Principal) : Type 0 where
    pub bearer : String
    pub claims : Fields
    pub given : token ≡ some bearer
    pub accepted : decode bearer ≡ some claims
    pub sub : Names claims "sub" p.sub
    pub institution_id : Names claims "institution_id" p.institution_id
    pub role : get claims "role" ≡ some (str (role_text p.role))

  uuid_at-Names :
      (claims : Fields) (key : String) (id : ℕ)
      → uuid_at decode uuid (text_at (get claims key)) ≡ some id
      → Names claims key id
  uuid_at-Names claims key id h = elim (Option-cases (text_at (get claims key))) [
    | inl e ↦ absurd (cc (rw e at h))
    | inr (s, e) ↦ record { text = s; claim = text_at-some (get claims key) s e; read = rw e at h }
  ]

  validated-some :
      (o : Option Principal) (p : Principal) → validated decode uuid o ≡ ok p → o ≡ some p
  validated-some none p h = absurd (cc h)
  validated-some (some q) p h = ap some (cc h)

  decoded-Verified :
      (token : String) (claims : Fields) (p : Principal)
      → decode token ≡ some claims
      → model_validate decode uuid claims ≡ some p
      → IsVerified (some token) p
  unfolding model_validate
  decoded-Verified token claims p h built_as =
      let (sub, institution_id, role) = built-some _ _ _ p built_as in
      record {
        bearer = token;
        claims = claims;
        given = refl;
        accepted = h;
        sub = uuid_at-Names claims "sub" p.sub sub;
        institution_id = uuid_at-Names claims "institution_id" p.institution_id institution_id;
        role = text_at-some (get claims "role") _ (role_of-some _ p.role role);
      }

  pub current_principal-Verified :
      (token : Option String) (p : Principal)
      → current_principal decode uuid token ≡ ok p
      → IsVerified token p
  unfolding current_principal
  current_principal-Verified none p h = absurd (cc h)
  current_principal-Verified (some token) p h = elim (Option-cases (decode token)) [
    | inl e ↦ absurd (cc (rw e at h))
    | inr (claims, e) ↦ decoded-Verified token claims p e (validated-some _ p (rw e at h))
  ]

  decoded-err : (o : Option Fields) (e : Error) → decoded decode uuid o ≡ err e → e ≡ unauthorized
  decoded-err none e h = sym (cc h)
  decoded-err (some claims) e h = elim (Option-cases (model_validate decode uuid claims)) [
    | inl absent ↦ sym (cc (rw absent at h))
    | inr (p, there) ↦ absurd (cc (rw there at h))
  ]

  pub current_principal-err :
      (token : Option String) (e : Error)
      → current_principal decode uuid token ≡ err e
      → e ≡ unauthorized
  unfolding current_principal
  current_principal-err none e h = sym (cc h)
  current_principal-err (some token) e h = decoded-err (decode token) e h

  -- An answer that says no more than that the request is not authorized, with nothing changed.
  pub record IsRefused {A : Type 0} (request : Request) (db : Db) (r : Response A × Db)
      : Type 0 where
    pub status_code : r.0.status_code ≡ 401
    pub body : r.0.body ≡ error "UNAUTHORIZED" request.request_id
    pub unchanged : r.1 ≡ db

  pub refused :
      {A : Type 0} (request : Request) (status_code : ℕ) (db : Db)
      → IsRefused {A = A} request db (answer request.request_id status_code (err unauthorized, db))
  unfolding answer request_context exception_response http_error codes
  refused request status_code db = record { status_code = refl; body = refl; unchanged = refl }

  module _ (request : Request) {A : Type 0} (status_code : ℕ) (handler : Principal → Action Db A)
      (db : Db) where
    pub serve-err :
        (e : Error)
        → current_principal decode uuid request.token ≡ err e
        → serve decode uuid request status_code handler db
          ≡ answer request.request_id status_code (err unauthorized, db)
    unfolding serve authorized
    serve-err e h = rw (h, current_principal-err request.token e h) refl

    pub serve-ok :
        (p : Principal)
        → current_principal decode uuid request.token ≡ ok p
        → serve decode uuid request status_code handler db
          ≡ answer request.request_id status_code (handler p db)
    unfolding serve authorized
    serve-ok p h = rw h refl

    -- A request is refused with 401, and changes nothing; or its token was accepted, the claims of the token
    -- are those of a principal, and the answer is what the handler does for that principal.
    pub serve-Verified :
        IsRefused request db (serve decode uuid request status_code handler db)
        ⊎ ((p : Principal) × IsVerified request.token p
            × (serve decode uuid request status_code handler db
                ≡ answer request.request_id status_code (handler p db)))
    serve-Verified = elim (Result-cases (current_principal decode uuid request.token)) [
      | inl (p, e) ↦ inr (p, current_principal-Verified request.token p e, serve-ok p e)
      | inr (x, e) ↦ inl (rw (serve-err x e) (refused request status_code db))
    ]
