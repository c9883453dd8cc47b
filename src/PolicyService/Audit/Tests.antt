-- ===== src/PolicyService/Audit/Tests.antt =====
-- A version that is created_version and then processed.
use placement_assistant.Prelude.{[], ◌∷◌, ◌≡◌, refl, keep, any, replace}
use placement_assistant.Value.{end}
use placement_assistant.Database.{Db, PolicyStatus, one_or_none, greatest}
use placement_assistant.Database.Sample.{campus, carla}
use placement_assistant.Repositories.{in_tenant, get_by_id, exists_row, insert, update}
use placement_assistant.PolicyService.Audit.{history, life, IsAudited}
use placement_assistant.PolicyService.Audit.Commands.{
  PolicyCommand, create_version, transition, carry_out, Reached, start, next, reached-IsAudited,
}
use placement_assistant.PolicyService.{
  create_policy_version, transition_status, advance, record_event, valid_transition, needs_staff,
  is_staff,
}

abbrev rulebook : Db
rulebook = record campus {
  policies = record { id = 3; institution_id = 1; code = "P"; name = "Placement" } ∷ [];
}

abbrev created_version : PolicyCommand
created_version =
    create_version 4 20 3
      (record { academic_year_id = 9; scope = "ALL"; schema_version = 1; definition = end })

abbrev processed : PolicyCommand
processed = transition 30 4 "ready" PolicyStatus.processing

run_life :
    history 1 4 (carry_out carla processed (carry_out carla created_version rulebook)).policy_events
    ≡ life PolicyStatus.processing
unfolding carry_out create_policy_version transition_status advance record_event valid_transition
    needs_staff is_staff in_tenant get_by_id exists_row insert update one_or_none greatest keep any
    replace
run_life = refl

rulebook-Reached : Reached (carry_out carla processed (carry_out carla created_version rulebook))
unfolding any
rulebook-Reached =
    next carla processed (carry_out carla created_version rulebook)
      (next carla created_version rulebook (start rulebook refl refl) (refl, refl)) tt

reached-IsAudited_example :
    IsAudited (carry_out carla processed (carry_out carla created_version rulebook))
reached-IsAudited_example =
    reached-IsAudited (carry_out carla processed (carry_out carla created_version rulebook))
      rulebook-Reached
