-- ===== src/Controller/Script/Settled.antt =====
-- `isScriptFinished` (pkg/controller/cluster.go) and the conditions that a machine has.
use docker_machine_operator.Base.{
  String, ◌==◌, ap, ◌≡◌, ◌≢◌, refl, sym, ◌∙◌, ◌⊎◌, inl, inr, Bool, true, false, Bool-cases, ◌||◌,
  none, some, List, [], ◌∷◌, All, Any,
}
use docker_machine_operator.Go.Error.{Error}
use docker_machine_operator.Api.Types.{
  Condition, LocalObjectReference, Machine, get_conditions, set_conditions,
}
use docker_machine_operator.Api.Names.{
  machine_ready, script_ready, auth_data_ready, cluster_operation_complete, machine_creating,
  ready_condition, severity_error,
}
use docker_machine_operator.Api.Reason
use docker_machine_operator.Api.Phase
use docker_machine_operator.Env.Event.{History}
use docker_machine_operator.Env.{Env}
use docker_machine_operator.Effect.{done, machine, set_machine, pure, ◌>>=◌}
use docker_machine_operator.Controller.Status.{is_true, mark_false}
use docker_machine_operator.Controller.Script.{
  get_default_user, scp_args, is_settled, copied, is_script_finished,
}
use docker_machine_operator.Controller.Script.Outcome.{after_copy, fetched}

-- The types of the conditions that the controller and the summary set.
abbrev pub IsKnown : Condition → Type 0
IsKnown c =
    Any (λ kind. c.kind ≡ kind)
      (machine_ready ∷ script_ready ∷ auth_data_ready ∷ cluster_operation_complete
        ∷ machine_creating ∷ ready_condition ∷ [])

-- The tests of `isScriptFinished`, on a condition's type.
abbrev is_end : String → Bool
is_end kind = (kind == Phase.success) || (kind == Phase.failed)

known_test : (c : Condition) → IsKnown c → is_end c.kind ≡ false
known_test c (inl e) = ap is_end e
known_test c (inr (inl e)) = ap is_end e
known_test c (inr (inr (inl e))) = ap is_end e
known_test c (inr (inr (inr (inl e)))) = ap is_end e
known_test c (inr (inr (inr (inr (inl e))))) = ap is_end e
known_test c (inr (inr (inr (inr (inr (inl e)))))) = ap is_end e
known_test c (inr (inr (inr (inr (inr (inr e)))))) = absurd e

end_test : (kind : String) → (kind ≡ Phase.success) ⊎ (kind ≡ Phase.failed) → is_end kind ≡ true
end_test kind (inl e) = ap is_end e
end_test kind (inr e) = ap is_end e

known-ne :
    (c : Condition) (kind : String)
    → IsKnown c
    → (kind ≡ Phase.success) ⊎ (kind ≡ Phase.failed)
    → c.kind ≢ kind
known-ne c kind k e same =
    let clash : true ≡ false = sym (ap is_end same ∙ end_test kind e) ∙ known_test c k in
    absurd (cc)

none_is :
    (cs : List Condition) (kind : String)
    → All IsKnown cs
    → (kind ≡ Phase.success) ⊎ (kind ≡ Phase.failed)
    → ¬ Any (λ c. c.kind ≡ kind) cs
none_is [] kind h e a = a
none_is (c ∷ cs) kind (k, h) e (inl same) = known-ne c kind k e same
none_is (c ∷ cs) kind (k, h) e (inr a) = none_is cs kind h e a

module _ (env : Env)
    (looks_up : (cs : List Condition) (kind : String)
      → env.is_condition_true cs kind ≡ true
      → Any (λ c. c.kind ≡ kind) cs)
    (m : Machine) (known : All IsKnown (get_conditions m)) where
  not_true :
      (kind : String) → (kind ≡ Phase.success) ⊎ (kind ≡ Phase.failed) → is_true env m kind ≡ false
  not_true kind e = elim (Bool-cases (is_true env m kind)) [
    | inl t ↦ absurd (none_is (get_conditions m) kind known e (looks_up (get_conditions m) kind t))
    | inr f ↦ f
  ]

  is_settled-known : is_settled env m ≡ false
  is_settled-known = rw (not_true Phase.success (inl refl), not_true Phase.failed (inr refl)) refl

  -- If a condition counts as true only where there is one of its type, then a machine that has a
  -- driver, whose conditions are all of the types that the controller and the summary set, which is
  -- ready, and whose result file cannot be copied, is looked at again, and its
  -- ClusterOperationComplete condition is marked false with the reason WaitingForScriptCompletion,
  -- whatever it was before.
  pub is_script_finished-unsettled :
      (h : History) {driver : LocalObjectReference} {e : Error}
      → m.spec.driver ≡ some driver
      → is_true env m machine_ready ≡ true
      → (env.run h none (scp_args (get_default_user driver.name) m.name)).error ≡ some e
      → is_script_finished env (record { machine_obj = some m; log = h }) ≡ (
        done true,
        record {
          machine_obj = some (
              set_conditions m (
                env.mark_false m cluster_operation_complete Reason.waiting_for_script_completion
                  severity_error "waiting for script completion"));
          log = after_copy env m h driver;
        },
      )
  unfolding copied mark_false machine set_machine pure ◌>>=◌
  is_script_finished-unsettled h has_driver ready failed =
      fetched env m h _ has_driver ready is_settled-known ∙ rw failed refl
