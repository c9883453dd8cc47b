-- ===== src/PolicyService/Tests.antt =====
-- A coordinator activates an approved version.
use placement_assistant.Prelude.{
  ◌≡◌, ◌≢◌, refl, ap, none, some, [], ◌∷◌, Result, ok, err, http, keep, replace, arith,
}
use placement_assistant.Value.{end}
use placement_assistant.Database.{
  Db, Principal, PolicyStatus, PolicyVersion, PolicyActivation, approved, active, one_or_none,
  greatest,
}
use placement_assistant.Database.Sample.{campus, carla, anna}
use placement_assistant.Repositories.{get_by_id, in_tenant, update}
use placement_assistant.EligibilityService.Snapshot.{get_active_policy}
use placement_assistant.PolicyService.Transition.{IsTransition, transition_status-IsTransition}
use placement_assistant.PolicyService.Activation.{
  AllApart, HasKey, get_active_policy_unambiguous, activate_policy-AllApart,
}
use placement_assistant.Repositories.Tables.{versions}
use placement_assistant.PolicyService.{
  transition_status, advance, valid_transition, needs_staff, is_staff, record_event,
  activate_policy,
}

abbrev version : PolicyStatus → PolicyVersion
version status = record {
  id = 4;
  institution_id = 1;
  policy_id = 1;
  version = 1;
  academic_year_id = 9;
  scope = "ALL";
  status = status;
  schema_version = 1;
  definition = end;
  effective_at = 0;
}

abbrev activation : PolicyActivation
activation = record {
  id = 5;
  institution_id = 1;
  policy_version_id = 3;
  academic_year_id = 9;
  scope = "ALL";
  starts_at = 10;
  ends_at = some 20;
}

abbrev office : Db
office = record campus {
  policy_versions = version approved ∷ [];
  policy_activations = activation ∷ [];
}

-- A transition with everything that it calls open.
move : Principal → Result PolicyVersion × Db
unfolding transition_status advance valid_transition needs_staff is_staff record_event update
    get_by_id in_tenant keep replace one_or_none greatest
move p = transition_status p 30 4 "start" active office

run_moves : (transition_status carla 30 4 "start" active office).0 ≡ ok (version active)
unfolding move
run_moves = refl

run_forbids : (transition_status anna 30 4 "start" active office).0 ≡ err (http 403 "FORBIDDEN")
unfolding move
run_forbids = refl

transition_status-IsTransition_example :
    IsTransition carla 30 4 "start" active office
      (version active)
      (transition_status carla 30 4 "start" active office).1
transition_status-IsTransition_example =
    transition_status-IsTransition carla 30 4 "start" active office (version active)
      (transition_status carla 30 4 "start" active office).1
      (ap
        (λ (r : Result PolicyVersion). (r, (transition_status carla 30 4 "start" active office).1))
        run_moves)

office-HasKey : HasKey office.policy_versions
unfolding keep
office-HasKey id = ground arith

get_active_policy_unambiguous_example :
    get_active_policy carla 9 "ALL" 15 office ≢ err (http 500 "POLICY_AMBIGUITY")
get_active_policy_unambiguous_example =
    get_active_policy_unambiguous carla 9 "ALL" 15 office (tt, tt) office-HasKey

activate_policy-AllApart_example :
    AllApart (activate_policy carla 6 30 4 "start" 20 none office).1.policy_activations
activate_policy-AllApart_example =
    activate_policy-AllApart carla 6 30 4 "start" 20 none office (tt, tt)

run_finds : keep (in_tenant versions 1 4) office.policy_versions ≡ version approved ∷ []
unfolding keep in_tenant
run_finds = refl

abbrev in_force : Db
in_force = record office {
  policy_versions = version active ∷ [];
  policy_activations =
      activation
      ∷ record activation { id = 6; policy_version_id = 4; starts_at = 20; ends_at = none }
      ∷ [];
}
