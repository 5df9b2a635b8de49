-- ===== src/Tests/Code.antt =====
-- The theorem on phases, at a concrete input.
use docker_machine_operator.Base.{◌≡◌, ◌↔◌, refl}
use docker_machine_operator.Api.Phase
use docker_machine_operator.Api.Helper.{get_phase}
use docker_machine_operator.Api.Helper.Table.{PhaseOf, get_phase-PhaseOf}
use docker_machine_operator.Tests.Fixtures.{marked}

get_phase-PhaseOf_example :
    (get_phase marked ≡ Phase.terminating) ↔ PhaseOf marked Phase.terminating
get_phase-PhaseOf_example = get_phase-PhaseOf marked Phase.terminating

marked_phase : get_phase marked ≡ Phase.terminating
unfolding get_phase
marked_phase = refl
