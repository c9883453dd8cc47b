-- ===== src/Application/Routers.antt =====
-- The routers of the services: policies.py, companies.py, opportunities.py, requirements.py and
-- eligibility.py of apps/api/app/api/routers, and those of the agent, which have a session of their own. New ids and the clock are parameters; an endpoint answers
-- with the service's row, of which its response schema shows a part.
use placement_assistant.Prelude.{
  ℕ, String, Bool, not, Option, none, some, List, Result, ok, err, attribute_error, Action, ◌>>=◌,
  ◌>>◌, pure, raise_if, or_raise,
}
use placement_assistant.Value.{Fields}
use placement_assistant.Database.{
  Db, Principal, CompanyRevision, CompensationTerms, CompanyRole, Criterion, Drive,
  EligibilityDecision, Opportunity, Policy, PolicyActivation, PolicyRule, PolicyStatus,
  PolicyVersion, RequirementMember, RequirementVersion,
}
use placement_assistant.Repositories.{get_by_id}
use placement_assistant.Repositories.Tables.{companies}
use placement_assistant.PolicyService
use placement_assistant.PolicyService.{VersionDraft}
use placement_assistant.RecruitmentService
use placement_assistant.RecruitmentService.{DriveDraft, OpportunityDraft}
use placement_assistant.RequirementService
use placement_assistant.RequirementService.{CriterionDraft, MemberDraft}
use placement_assistant.EligibilityService
use placement_assistant.EligibilityService.Snapshot.{Context}
use placement_assistant.Agent.Authority.{M8AgentResponse}
use placement_assistant.Agent.Turn.{World}
use placement_assistant.Agent.Endpoints
use placement_assistant.Agent.Endpoints.{
  CopilotAgentResponse, CopilotConversationSession, CopilotMessage,
}
use placement_assistant.Application.Security.{current_principal}
use placement_assistant.Application.{Request, Response, answer, serve}

-- CompanyResponse: the id and the code are the company's, the name is the revision's.
pub record CompanyResponse : Type 0 where
  pub id : ℕ
  pub code : String
  pub name : String

module _ (decode : String → Option Fields) (uuid : String → Option ℕ) (request : Request) where
  -- `get_policy_service` and its like, which read `request.state.dependencies.session`.
  unfoldable pub with_service : {A : Type 0} → ℕ → (Principal → Action Db A) → Db → Response A × Db
  with_service status_code handler =
      serve decode uuid request status_code
        λ p. do raise_if (not request.has_session) attribute_error; handler p

  company_response : Principal → CompanyRevision → Action Db CompanyResponse
  company_response p revision = do
    found ← get_by_id companies p.institution_id revision.company_id
    company ← or_raise attribute_error found
    pure (record { id = company.id; code = company.code; name = revision.name })

  module _ (new_id now : ℕ) where
    create_policy : String → String → Db → Response Policy × Db
    create_policy code name = with_service 201 λ p. PolicyService.create_policy p new_id code name

    create_policy_version : ℕ → VersionDraft → Db → Response PolicyVersion × Db
    create_policy_version policy_id given =
        with_service 201 λ p. PolicyService.create_policy_version p new_id now policy_id given

    add_policy_rule : ℕ → String → Fields → Db → Response PolicyRule × Db
    add_policy_rule version_id code definition =
        with_service 201 λ p. PolicyService.add_policy_rule p new_id version_id code definition

    unfoldable pub transition_to_processing : ℕ → String → Db → Response PolicyVersion × Db
    transition_to_processing version_id reason =
        with_service 200
          λ p. PolicyService.transition_status p now version_id reason PolicyStatus.processing

    unfoldable pub transition_to_review : ℕ → String → Db → Response PolicyVersion × Db
    transition_to_review version_id reason =
        with_service 200
          λ p. PolicyService.transition_status p now version_id reason PolicyStatus.review

    unfoldable pub approve_policy : ℕ → String → Db → Response PolicyVersion × Db
    approve_policy version_id reason =
        with_service 200 λ p. PolicyService.approve_policy p now version_id reason

    activate_policy : ℕ → String → ℕ → Option ℕ → Db → Response PolicyActivation × Db
    activate_policy version_id reason starts_at ends_at =
        with_service 201
          λ p. PolicyService.activate_policy p new_id now version_id reason starts_at ends_at

    archive_policy : ℕ → String → Db → Response PolicyVersion × Db
    archive_policy version_id reason =
        with_service 200 λ p. PolicyService.archive_policy p now version_id reason

    create_company : String → String → Db → Response CompanyResponse × Db
    unfolding company_response
    create_company code name = with_service 201 λ p. do
      revision ← RecruitmentService.create_company p new_id now code name
      company_response p revision

    update_company : ℕ → String → Db → Response CompanyResponse × Db
    unfolding company_response
    update_company company_id name = with_service 200 λ p. do
      revision ← RecruitmentService.update_company p company_id now name
      company_response p revision

    create_role : ℕ → String → String → Db → Response CompanyRole × Db
    create_role company_id code title =
        with_service 201 λ p. RecruitmentService.create_role p new_id company_id code title

    create_drive : ℕ → DriveDraft → Db → Response Drive × Db
    create_drive company_id given =
        with_service 201 λ p. RecruitmentService.create_drive p new_id company_id given

    create_opportunity : ℕ → OpportunityDraft → Db → Response Opportunity × Db
    create_opportunity company_id given =
        with_service 201 λ p. RecruitmentService.create_opportunity p new_id company_id given

    close_opportunity : ℕ → Db → Response Opportunity × Db
    close_opportunity opportunity_id =
        with_service 200 λ p. RecruitmentService.close_opportunity p opportunity_id

    initialize_requirement_graph :
        (String → Bool) → ℕ → CompensationTerms → Db → Response RequirementVersion × Db
    initialize_requirement_graph currency_code opportunity_id given = with_service 201 λ p.
        RequirementService.initialize_requirement_graph p currency_code new_id now opportunity_id
          given

    add_criterion : ℕ → CriterionDraft → Db → Response Criterion × Db
    add_criterion version_id given =
        with_service 201 λ p. RequirementService.add_criterion p new_id version_id given

    add_requirement_member : ℕ → MemberDraft → Db → Response RequirementMember × Db
    add_requirement_member criterion_id given =
        with_service 201 λ p. RequirementService.add_requirement_member p new_id criterion_id given

    publish_requirement_version : ℕ → Db → Response RequirementVersion × Db
    publish_requirement_version version_id =
        with_service 200 λ p. RequirementService.publish_requirement_version p now version_id

  unfoldable pub evaluate_eligibility :
      Context → (Db → Db) → ℕ → ℕ → ℕ → Db → Response EligibilityDecision × Db
  evaluate_eligibility context meanwhile student_id opportunity_id requirement_version_id =
      with_service 201 λ p.
        EligibilityService.evaluate context p student_id opportunity_id requirement_version_id
          meanwhile

  list_conversations : Db → Response (List CopilotConversationSession) × Db
  list_conversations = serve decode uuid request 200 Endpoints.list_conversations

  create_conversation : ℕ → ℕ → Db → Response CopilotConversationSession × Db
  create_conversation new_id now =
      serve decode uuid request 200 λ p. Endpoints.create_conversation p new_id now

  unfoldable pub get_conversation_history : ℕ → ℕ → Db → Response (List CopilotMessage) × Db
  get_conversation_history conversation_id now =
      serve decode uuid request 200 λ p. Endpoints.get_conversation_history p conversation_id now

  -- An endpoint whose handler runs the agent's loop, on its fuel.
  module _ {A : Type 0} (handler : Principal → Db → Option (Result A × Db)) where
    abbrev pub run_as : Result Principal → Db → Option (Result A × Db)
    run_as (err e) db = some (err e, db)
    run_as (ok p) db = handler p db

    abbrev pub answered : Option (Result A × Db) → Option (Response A × Db)
    answered none = none
    answered (some outcome) = some (answer request.request_id 200 outcome)

    unfoldable pub serve_agent : Db → Option (Response A × Db)
    serve_agent db = answered (run_as (current_principal decode uuid request.token) db)

  module _ (w : World) (conversation_id fuel : ℕ) (query : String) where
    unfoldable pub chat_with_agent : Db → Option (Response M8AgentResponse × Db)
    chat_with_agent = serve_agent λ p. Endpoints.chat_with_agent w p conversation_id fuel query

    unfoldable pub send_message : Db → Option (Response CopilotAgentResponse × Db)
    send_message = serve_agent λ p. Endpoints.send_message w p conversation_id fuel query
