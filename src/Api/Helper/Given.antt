-- ===== src/Api/Helper/Given.antt =====
-- `GetPhase` (api/v1alpha1/helper.go) always gives a phase.
use docker_machine_operator.Base.{Bool, true, false, not, ◌≡◌, refl, List, [], ◌∷◌, if◌then◌else◌}
use docker_machine_operator.Go.Text.{is_empty}
use docker_machine_operator.Api.Types.{Condition, Machine, MachinePhase, get_conditions}
use docker_machine_operator.Api.Phase
use docker_machine_operator.Api.Helper.{
  is_zero, get_phase, phase_of_ready, phase_of_conditions, find_ready,
}

pub record IsGiven (p : MachinePhase) : Type 0 where
  pub is_given : is_empty p ≡ false

if-IsGiven : (b : Bool) (p q : MachinePhase) → IsGiven p → IsGiven q → IsGiven (if b then p else q)
if-IsGiven true p q g h = g
if-IsGiven false p q g h = h

given : (p : MachinePhase) → is_empty p ≡ false → IsGiven p
given p e = record { is_given = e }

phase_of_ready-IsGiven : (c : Condition) → IsGiven (phase_of_ready c)
phase_of_ready-IsGiven c = search (if-IsGiven, given) depth 14

phase_of_conditions-IsGiven : (cs : List Condition) → IsGiven (phase_of_conditions cs)
phase_of_conditions-IsGiven [] = record { is_given = refl }
phase_of_conditions-IsGiven (c ∷ cs) = phase_of_ready-IsGiven (find_ready (c ∷ cs))

pub get_phase-IsGiven : (m : Machine) → IsGiven (get_phase m)
unfolding get_phase
get_phase-IsGiven m =
    if-IsGiven (not (is_zero m.deletion_timestamp)) _ _ (given Phase.terminating refl)
      (phase_of_conditions-IsGiven (get_conditions m))
