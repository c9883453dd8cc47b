-- ===== src/Application/Failures.antt =====
-- What a request that fails leaves, in the routers of apps/api/app/api/routers.
use placement_assistant.Prelude.{
  ℕ, String, true, false, not, Option, some, Result, ok, err, Error, http_detail, attribute_error,
  Action, ◌≡◌, refl, ap, sym, ◌∙◌, ◌⊎◌, inl, inr, Result-cases, Bool-cases, raise_if, ◌>>◌,
}
use placement_assistant.Value.{Fields}
use placement_assistant.Database.{Db, Principal, PolicyStatus, ConversationSession}
use placement_assistant.PolicyService.{transition_status, approve_policy as service_approve_policy}
use placement_assistant.PolicyService.Transition.{transition_status_unchanged}
use placement_assistant.Agent.Memory.Ownership.{IsSession, IsOwner}
use placement_assistant.Agent.Endpoints.Access.{endpoints_denied}
use placement_assistant.Agent.Turn.{World}
use placement_assistant.Application.Security.{current_principal, unauthorized}
use placement_assistant.Application.{
  Request, Response, error, answer, serve, request_context, exception_response, http_error, codes,
}
use placement_assistant.Application.Routers.{
  with_service, transition_to_processing, transition_to_review, approve_policy,
  get_conversation_history, chat_with_agent, send_message, serve_agent,
}
use placement_assistant.Application.Access.{
  IsVerified, serve-Verified, current_principal-Verified, current_principal-err, serve-ok,
  serve-err,
}

-- The answer to an exception that nothing handles, with nothing changed.
record IsUnavailable {A : Type 0} (request : Request) (db : Db) (r : Response A × Db) : Type 0 where
  status_code : r.0.status_code ≡ 500
  body : r.0.body ≡ error "INTERNAL_ERROR" request.request_id
  unchanged : r.1 ≡ db

unavailable :
    {A : Type 0} (request : Request) (status_code : ℕ) (db : Db)
    → IsUnavailable {A = A} request db
        (answer request.request_id status_code (err attribute_error, db))
unfolding answer request_context exception_response
unavailable request status_code db = record { status_code = refl; body = refl; unchanged = refl }

-- The step that takes the session, before the handler.
without_session :
    {A : Type 0} (request : Request) (m : Action Db A) (db : Db)
    → request.has_session ≡ false
    → (raise_if (not request.has_session) attribute_error >> m) db ≡ (err attribute_error, db)
without_session request m db h = rw h refl

with_session :
    {A : Type 0} (request : Request) (m : Action Db A) (db : Db)
    → request.has_session ≡ true
    → (raise_if (not request.has_session) attribute_error >> m) db ≡ m db
with_session request m db h = rw h refl

-- An answer that has an error body answers a call that raised.
answer-error :
    {A : Type 0} (request_id : String) (status_code : ℕ) (r : Result A) (db : Db) (code id : String)
    → (answer request_id status_code (r, db)).0.body ≡ error code id
    → (e : Error) × (r ≡ err e)
unfolding answer request_context
answer-error request_id status_code (ok a) db code id h = absurd (cc h)
answer-error request_id status_code (err e) db code id h = (e, refl)

answer_unchanged :
    {A : Type 0} (request_id : String) (status_code : ℕ) (m : Result A × Db) (db : Db)
    (code id : String)
    → ((e : Error) → m.0 ≡ err e → m.1 ≡ db)
    → (answer request_id status_code m).0.body ≡ error code id
    → (answer request_id status_code m).1 ≡ db
unfolding answer
answer_unchanged request_id status_code (r, t) db code id keeps h =
    let (e, raised) = answer-error request_id status_code r t code id h in keeps e raised

module _ (decode : String → Option Fields) (uuid : String → Option ℕ) (request : Request) where
  module _ {A : Type 0} (status_code : ℕ) (handler : Principal → Action Db A) (db : Db) where
    with_service_unchanged :
        ((p : Principal) (e : Error) → (handler p db).0 ≡ err e → (handler p db).1 ≡ db)
        → (code id : String)
        → (with_service decode uuid request status_code handler db).0.body ≡ error code id
        → (with_service decode uuid request status_code handler db).1 ≡ db
    unfolding with_service
    with_service_unchanged keeps code id h =
        elim (serve-Verified decode uuid request status_code
          (λ p. raise_if (not request.has_session) attribute_error >> handler p) db) [
            | inl denied ↦ denied.unchanged
            | inr (p, _, same) ↦ elim (Bool-cases request.has_session) [
              | inl on ↦
                  let as_handler =
                    same
                    ∙ ap (answer request.request_id status_code)
                        (with_session request (handler p) db on) in
                  rw as_handler (
                    answer_unchanged request.request_id status_code (handler p db) db code id
                      (keeps p) (ap (λ r. r.0.body) (sym as_handler) ∙ h))
              | inr off ↦
                  ap (λ r. r.1)
                    (same
                      ∙ ap (answer request.request_id status_code)
                          (without_session request (handler p) db off))
                  ∙ (unavailable {A = A} request status_code db).unchanged
            ]
          ]

  -- A transition of a policy that is answered with an error, whatever it is, changes nothing.
  pub transition_endpoints_unchanged :
      (new_id now version_id : ℕ) (reason : String) (db : Db) (code id : String)
      → ((transition_to_processing decode uuid request new_id now version_id reason db).0.body
            ≡ error code id
          → (transition_to_processing decode uuid request new_id now version_id reason db).1 ≡ db)
        × ((transition_to_review decode uuid request new_id now version_id reason db).0.body
              ≡ error code id
            → (transition_to_review decode uuid request new_id now version_id reason db).1 ≡ db)
        × ((approve_policy decode uuid request new_id now version_id reason db).0.body
              ≡ error code id
            → (approve_policy decode uuid request new_id now version_id reason db).1 ≡ db)
  unfolding transition_to_processing transition_to_review approve_policy service_approve_policy
  transition_endpoints_unchanged new_id now version_id reason db code id = (
    with_service_unchanged 200
        (λ p. transition_status p now version_id reason PolicyStatus.processing) db
        (λ p. transition_status_unchanged p now version_id reason PolicyStatus.processing db) code
        id,
    with_service_unchanged 200 (λ p. transition_status p now version_id reason PolicyStatus.review)
        db (λ p. transition_status_unchanged p now version_id reason PolicyStatus.review db) code
        id,
    with_service_unchanged 200 (λ p. service_approve_policy p now version_id reason) db
        (λ p. transition_status_unchanged p now version_id reason PolicyStatus.approved db) code id,
  )

  -- An answer that refuses, with 401 or 403, and changes nothing.
  pub record IsClosed {A : Type 0} (db : Db) (o : Option (Response A × Db)) : Type 0 where
    answer : Response A
    ends : o ≡ some (answer, db)
    status_code : (answer.status_code ≡ 401) ⊎ (answer.status_code ≡ 403)

  forbidden_status :
      {A : Type 0} (db : Db)
      → IsClosed {A = A} db
          (some (answer request.request_id 200 (err (http_detail 403 "FORBIDDEN"), db)))
  unfolding answer request_context exception_response http_error codes
  forbidden_status db = record { answer = _; ends = refl; status_code = inr refl }

  unauthorized_status :
      {A : Type 0} (db : Db)
      → IsClosed {A = A} db (some (answer request.request_id 200 (err unauthorized, db)))
  unfolding answer request_context exception_response http_error codes
  unauthorized_status db = record { answer = _; ends = refl; status_code = inl refl }

  serve_agent-Closed :
      {A : Type 0} (handler : Principal → Db → Option (Result A × Db)) (db : Db)
      → ((p : Principal)
          → IsVerified decode uuid request.token p
          → handler p db ≡ some (err (http_detail 403 "FORBIDDEN"), db))
      → IsClosed db (serve_agent decode uuid request handler db)
  unfolding serve_agent
  serve_agent-Closed handler db closed =
      elim (Result-cases (current_principal decode uuid request.token)) [
        | inl (p, e) ↦
            rw (e, closed p (current_principal-Verified decode uuid request.token p e))
              (forbidden_status db)
        | inr (x, e) ↦
            rw (e, current_principal-err decode uuid request.token x e) (unauthorized_status db)
      ]

  serve-Closed :
      {A : Type 0} (handler : Principal → Action Db A) (db : Db)
      → ((p : Principal)
          → IsVerified decode uuid request.token p
          → handler p db ≡ (err (http_detail 403 "FORBIDDEN"), db))
      → IsClosed db (some (serve decode uuid request 200 handler db))
  serve-Closed handler db closed =
      elim (Result-cases (current_principal decode uuid request.token)) [
        | inl (p, e) ↦
            rw
              (
                serve-ok decode uuid request 200 handler db p e,
                closed p (current_principal-Verified decode uuid request.token p e),
              )
              (forbidden_status db)
        | inr (x, e) ↦
            rw (serve-err decode uuid request 200 handler db x e) (unauthorized_status db)
      ]

  -- Whoever a request is from, if they are not the owner of a conversation then a message to it, by either
  -- endpoint, and a reading of its history are refused with 401 or 403, whatever the model would answer, and
  -- change nothing.
  pub conversation-IsClosed :
      (w : World) (c fuel : ℕ) (query : String) (db : Db) (t : ConversationSession)
      → IsSession db c t
      → ((p : Principal) → IsVerified decode uuid request.token p → ¬ IsOwner p db t)
      → IsClosed db (chat_with_agent decode uuid request w c fuel query db)
        × IsClosed db (send_message decode uuid request w c fuel query db)
        × IsClosed db (some (get_conversation_history decode uuid request c w.now db))
  unfolding chat_with_agent send_message get_conversation_history
  conversation-IsClosed w c fuel query db t h others =
      let closed : (p : Principal) → IsVerified decode uuid request.token p → _ =
        λ p verified. endpoints_denied w p c fuel query db t h (others p verified) in
      (
        serve_agent-Closed _ db (λ p verified. (closed p verified).0),
        serve_agent-Closed _ db (λ p verified. (closed p verified).1),
        serve-Closed _ db (λ p verified. (closed p verified).2),
      )
