-- ===== src/Lib.antt =====
-- The placement assistant's API: students' eligibility for opportunities, and the agent that
-- answers questions about it.
--
-- The parts and their files (paths below are from the repository's root, under apps/api/app):
--   - Prelude: Boolean tests, lists, integers, calls that end with a value or an exception
--     (Action: what was written before a raise stays written).
--   - Value: Python's JSON values with truthiness, equality, order and `in`, as the engine
--     compares them. Floats are fractions; no rounding is modelled.
--   - Engine: core/engine/evaluator.py, one definition per function (evaluate_operator,
--     resolve_field_path, evaluate_rule, aggregate_results, evaluate_snapshot).
--   - Database: the rows of infrastructure/models, one list for each table, and the shapes of the
--     queries.
--   - EligibilityService: core/services/eligibility_service.py. Its child Snapshot has
--     _get_active_policy, build_snapshot and the reads of evaluate, Inputs says which rules and
--     criteria are read; the parent has the rest. What
--     other requests commit between the reads and the commit is a parameter (`meanwhile`).
--   - Repositories: infrastructure/repositories/base.py, over any table; Repositories.Tables has the
--     tables of the repositories beside it.
--   - PolicyService: core/services/policy_service.py; its child Documents has `create_document`,
--     and Audit what its commands make of the events of a version.
--   - RecruitmentService: core/services/company_service.py and opportunity_service.py.
--   - RequirementService: core/services/requirement_service.py; its child Constraints has the check
--     constraints of the tables.
--   - Evidence: the checks of rag/contracts.py on bindings, sources, vectors and manifests; its child
--     Canonical has the JSON text that a space or a chunk is hashed from.
--   - Rag: the rows of infrastructure/models/rag.py and the document store's directory, the state of the
--     evidence pipeline. Text of Python is in Evidence.Text; Evidence.Identity and Evidence.Chunk have
--     the checks of hashes, identities, chunks, spaces and citations of rag/contracts.py.
--   - SourceService: rag/source_service.py and rag/source_repository.py. Its child Storage has
--     rag/source_store.py, Immutable what the store keeps, Stored and RoundTrip what a review reads.
--   - BindingService: rag/binding_service.py. Its children: Repository has rag/binding_repository.py,
--     Triggers what the database does with a new row, by migrations/versions/d72e620b7302; History the
--     commands in transactions and the life of a binding, Steps and Retry a request that is made again,
--     Approval what an approval has verified.
--   - Ingestion: rag/ingestion_repository.py. Its children: Chunks has save_chunks, Lease what a worker
--     acquires, Remaining and Drain how the queue empties.
--   - GenerationService: rag/generation_service.py; its children say what it leaves when it returns and
--     when it raises, and what stays true of the table of what is
--     published; Indexed says which points and which entry that is.
--   - RetrievalService: rag/retrieval_service.py. Its children: Rows and Grounded follow evidence to its
--     rows, Published says what is published and what a citation repeats.
--   - Adapters: the HTTP clients of the index and the provider, in Adapters.Qdrant (rag/qdrant_adapter.py)
--     and Adapters.Embedding (rag/embedding_provider.py). Their replies are a parameter. The loop of
--     `fetch_manifest` has fuel, a number of requests: enough is the number of pages, by Scroll.
--   - Agent.Endpoints: api/routers/agent.py and api/routers/copilot.py, which call Memory and Orchestrator.
--     Its children: Access has who is answered, Answer what `send_message` answers.
--   - Agent.PolicyTools: agent/m8_policy_tools.py and agent/m8_m6_bridge.py, a search that RetrievalService
--     answers. Its child Sourced follows each item to its row.
--   - Application: main.py, which answers a call that returned or raised. Its children: Security has
--     core/security.py, Dependencies infrastructure/dependencies.py and `ready`, Readiness what that
--     says, Routers the endpoints of api/routers over the services and the agent; Access and Failures
--     who is answered, and what is left when a request fails.
--   - Agent.Memory: agent/memory.py, and owned_student of agent/m8_authority.py.
--   - Agent.Budget: agent/limits.py.
--   - Agent.Tools: the evaluation tool of agent/m8_authority.py. Its children: Applicable has the
--     requirement version that it finds, Grounded follows a decision of a run to its evaluation.
--   - Agent.Authority, Agent.Turn, Agent.Orchestrator: agent/orchestrator.py and the messages of
--     agent/m8_authority.py.
--
-- An evaluation reads the policy that the policy service activated, the rules and criteria that it
-- and the requirement service stored, and the drive of an opportunity; it persists what the engine
-- decides. A flush raises IntegrityError where a modelled constraint is violated.
--
-- The agent's loop calls the model, the budget, the memory and the registered tools; a tool for
-- eligibility returns what the engine decided. The chat client, the JSON and pydantic libraries and
-- the registry of tools are parameters of a run (World): a client may answer anything, and a tool
-- may do anything to the database. Each call of the model is one round of `loop`, whose fuel counts
-- rounds. A budget allows at most twenty steps, so that fuel for 21 rounds is always enough.
--
-- The vector index, the embedding provider and sha256 are parameters of the evidence pipeline: what
-- they answer to one call, whatever it is. A command on bindings is a transaction; the operating
-- system's errors are a fault that the state names.
--
-- Authentication decodes a token by a parameter (jwt.decode). A request that FastAPI refuses itself, for
-- its path or its body, is not modelled.
--
-- Not modelled: logging, metrics, configuration, schema migrations but for the triggers, the web client,
-- and two requests that run at once, but for `meanwhile`. The schemas that are sent to the model with a
-- call are part of the client.
pub mod Prelude
pub mod Value
pub mod Engine
pub mod Database
pub mod Agent
pub mod EligibilityService
pub mod Repositories
pub mod PolicyService
pub mod RecruitmentService
pub mod RequirementService
pub mod Evidence
pub mod Rag
pub mod SourceService
pub mod BindingService
pub mod Ingestion
pub mod GenerationService
pub mod RetrievalService
pub mod Adapters
pub mod Application
