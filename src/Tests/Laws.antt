-- ===== src/Tests/Laws.antt =====
-- The promises of the condition helpers and the committer, for the environment of the tests.
use docker_machine_operator.Base.{
  String, ◌==◌, Bool, true, false, ◌≡◌, refl, ◌∙◌, eq_iff, eq_refl, Option, List, [], ◌∷◌, Any, inl,
  inr, arith, Bool-cases, if◌then◌else◌,
}
use docker_machine_operator.Go.Error.{Error, Except}
use docker_machine_operator.Api.Types.{Condition, Machine, get_conditions}
use docker_machine_operator.Api.Names.{ready_condition, condition_true, machine_creating}
use docker_machine_operator.Controller.Create.Once.{IsLawful}
use docker_machine_operator.Tests.Fixtures.{
  is_condition_true, set_condition, true_condition, all_true, summary_of, env_of,
}

-- A condition that is set decides its own type, and no other.
set_condition_lem :
    (c : Condition) (cs : List Condition) (kind : String)
    → is_condition_true (set_condition c cs) kind
      ≡ (if c.kind == kind then c.status == condition_true else is_condition_true cs kind)
set_condition_lem c [] kind = refl
set_condition_lem c (d ∷ cs) kind = ground (
  arith,
  eq_iff d.kind c.kind,
  eq_iff d.kind kind,
  eq_iff c.kind kind,
  set_condition_lem c cs kind,
)

pub looks_up :
    (cs : List Condition) (kind : String)
    → is_condition_true cs kind ≡ true
    → Any (λ c. c.kind ≡ kind) cs
looks_up [] kind e = ground arith
looks_up (c ∷ cs) kind e = elim (Bool-cases (c.kind == kind)) [
  | inl t ↦ inl ((eq_iff c.kind kind).0 t)
  | inr f ↦ inr (looks_up cs kind (ground (arith, f, e)))
]

summary_kind : (b : Bool) → (summary_of b).kind ≡ ready_condition
summary_kind true = refl
summary_kind false = refl

module _ (stored : Except Machine) (failure : Option Error) (result : String) where
  pub IsLawful-env : IsLawful (env_of stored failure result)
  IsLawful-env = record {
    marks_true = λ m kind.
        set_condition_lem (true_condition kind) (get_conditions m) kind ∙ rw (eq_refl kind) refl;
    mark_true_keeps = λ m kind other h.
        set_condition_lem (true_condition kind) (get_conditions m) other
        ∙ elim (Bool-cases (kind == other)) [ inl t ↦ rw t refl | inr f ↦ rw f h ];
    mark_false_keeps = λ m kind reason severity text other f h.
        set_condition_lem _ (get_conditions m) other ∙ rw f h;
    set_summary_keeps = λ m kinds h.
        set_condition_lem (summary_of (all_true (get_conditions m) kinds)) (get_conditions m)
          machine_creating
        ∙ rw (summary_kind (all_true (get_conditions m) kinds)) h;
    commit_keeps = λ h old m stored' kind e t. cc;
  }
