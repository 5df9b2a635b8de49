-- ===== src/Controller/Aws/Gateway/Rollback.antt =====
-- What becomes of an internet gateway that is created, pkg/controller/aws.go.
use docker_machine_operator.Base.{
  String, ◌≡◌, refl, ◌⊎◌, inl, inr, Option, none, some, Option-cases, ◌∷◌, Any,
}
use docker_machine_operator.Go.Error.{Error, ok, Except-cases}
use docker_machine_operator.Api.Types.{Machine}
use docker_machine_operator.Env.Event.{
  Event, History, Handle, created_gateway, deleted_gateway, described_route_tables, patched,
  annotation_set,
}
use docker_machine_operator.Env.{Env}
use docker_machine_operator.Effect.{
  State, done, failed, Action, pure, skip, fail, call, call_error, attempt, ◌>>=◌, ◌>>◌,
}
use docker_machine_operator.Controller.Finalizer.{patch_annotation}
use docker_machine_operator.Controller.Aws.{
  logged, or_undo, allow_all_ips, aws_internet_gateway_id_annotation,
}
use docker_machine_operator.Controller.Aws.Asks.{
  Has, ignore_missing-asks, patch_annotation-asks, undone-asks,
}
use docker_machine_operator.Controller.Aws.Gateway.{
  no_route_table, route_table_of, find_route_table, create_aws_route, delete_aws_route,
  attach_internet_gateway_to_vpc, detach_internet_gateway_to_vpc, delete_aws_internet_gateway,
  create_aws_internet_gateway,
}

-- The gateway is asked to be deleted, or recorded on the machine.
abbrev pub IsAccounted : String → Event → Type 0
IsAccounted id (deleted_gateway c gateway r) = gateway ≡ id
IsAccounted id (patched m (annotation_set key value) r) =
    (key ≡ aws_internet_gateway_id_annotation) × (value ≡ id)
IsAccounted id _ = ⊥

-- An action that drops its errors, and changes nothing but the history.
abbrev IsQuiet : Action Unit → State → Type 0
IsQuiet act s = act s ≡ (done tt, record s { log = (act s).1.log })

call_error-IsQuiet :
    (ask : History → Option Error) (note : Option Error → Event) (s : State)
    → IsQuiet (logged (call_error ask note)) s
unfolding logged attempt call_error ◌>>=◌ skip pure
call_error-IsQuiet ask note s = elim (Option-cases (ask s.log)) [
  | inl e ↦ rw e refl
  | inr (x, e) ↦ rw e refl
]

-- An action that goes through or fails, and changes nothing but the history.
abbrev IsStep : Action Unit → State → Type 0
IsStep act s =
    IsQuiet act s ⊎ ((x : Error) × (act s ≡ (failed x, record s { log = (act s).1.log })))

-- What follows such an action starts with the same machine.
quiet-bind :
    (P : State → Type 0) (act : Action Unit) (f : Unit → Action Unit) (s : State)
    → IsQuiet act s
    → ((log : History) → P (f tt (record s { log = log })).1)
    → P ((act >>= f) s).1
unfolding ◌>>=◌
quiet-bind P act f s q h = rw q (h (act s).1.log)

module _ (env : Env) (c : Handle) (vpc_id : String) where
  delete_aws_route-IsQuiet : (s : State) → IsQuiet (logged (delete_aws_route env c vpc_id)) s
  unfolding logged attempt delete_aws_route find_route_table call call_error ◌>>=◌ skip pure fail
  delete_aws_route-IsQuiet s = elim (Except-cases (env.describe_route_tables s.log c)) [
    | inl (x, e) ↦ rw e refl
    | inr (tables, e) ↦ elim (Option-cases (route_table_of vpc_id none tables)) [
      | inl f ↦ rw (e, f) refl
      | inr (rt, f) ↦
          elim (Option-cases (
            env.delete_route (described_route_tables c (ok tables) ∷ s.log) c "0.0.0.0/0"
              rt.route_table_id)) [ inl g ↦ rw (e, f, g) refl | inr (x, g) ↦ rw (e, f, g) refl ]
    ]
  ]

  -- Whatever goes wrong before, the deletion is asked for.
  delete_gateway-asks :
      (id : String) (s : State)
      → Any (IsAccounted id) (delete_aws_internet_gateway env c id vpc_id s).1.log
  unfolding delete_aws_internet_gateway detach_internet_gateway_to_vpc
  delete_gateway-asks id s =
      quiet-bind (Has (IsAccounted id)) _ _ s (delete_aws_route-IsQuiet s) λ log.
        quiet-bind (Has (IsAccounted id)) _ _ (record s { log = log }) (call_error-IsQuiet _ _ _)
          λ log'.
            ignore_missing-asks (IsAccounted id) (λ h. env.delete_internet_gateway h c id)
              (deleted_gateway c id) (record s { log = log' }) (λ r. refl)

  -- An action that the deletion undoes: either it fails, and the deletion is asked for, or it goes on.
  or_undo-Has :
      (id : String) (act : Action Unit) (f : Unit → Action Unit) (s : State)
      → IsStep act s
      → ((log : History) → Has (IsAccounted id) (f tt (record s { log = log })).1)
      → Has (IsAccounted id) ((or_undo act (delete_aws_internet_gateway env c id vpc_id) >>= f) s).1
  unfolding or_undo attempt ◌>>=◌ fail skip pure
  or_undo-Has id act f s (inl q) h = rw q (h (act s).1.log)
  or_undo-Has id act f s (inr (x, q)) h = rw q (
      undone-asks (IsAccounted id) x f
        (delete_aws_internet_gateway env c id vpc_id (record s { log = (act s).1.log })).0 _
        (delete_gateway-asks id (record s { log = (act s).1.log })))

  call_error-IsStep :
      (ask : History → Option Error) (note : Option Error → Event) (s : State)
      → IsStep (call_error ask note) s
  unfolding call_error
  call_error-IsStep ask note s = elim (Option-cases (ask s.log)) [
    | inl e ↦ inl (rw e refl)
    | inr (x, e) ↦ inr (x, rw e refl)
  ]

  create_aws_route-IsStep : (id : String) (s : State) → IsStep (create_aws_route env c vpc_id id) s
  unfolding create_aws_route find_route_table call call_error ◌>>=◌ pure fail
  create_aws_route-IsStep id s = elim (Except-cases (env.describe_route_tables s.log c)) [
    | inl (x, e) ↦ inr (x, rw e refl)
    | inr (tables, e) ↦ elim (Option-cases (route_table_of vpc_id none tables)) [
      | inl f ↦ inr (no_route_table vpc_id, rw (e, f) refl)
      | inr (rt, f) ↦
          elim (Option-cases (
            env.create_route (described_route_tables c (ok tables) ∷ s.log) c allow_all_ips id
              rt.route_table_id)) [
                | inl g ↦ inl (rw (e, f, g) refl)
                | inr (x, g) ↦ inr (x, rw (e, f, g) refl)
              ]
    ]
  ]

  -- If a machine is in memory and EC2 creates an internet gateway, then, whatever fails after it, the
  -- gateway is asked to be deleted, or a machine is asked to be annotated with it.
  pub create_aws_internet_gateway-IsAccounted :
      (s : State) {m : Machine} {id : String}
      → s.machine_obj ≡ some m
      → env.create_internet_gateway s.log c ≡ ok id
      → Any (IsAccounted id) (create_aws_internet_gateway env c vpc_id s).1.log
  unfolding create_aws_internet_gateway attach_internet_gateway_to_vpc call ◌>>=◌
  create_aws_internet_gateway-IsAccounted s {m} {id} has created = rw created (
      or_undo-Has id _
        (λ _.
          or_undo (create_aws_route env c vpc_id id) (delete_aws_internet_gateway env c id vpc_id)
          >> patch_annotation env aws_internet_gateway_id_annotation id)
        (record s { log = created_gateway c (ok id) ∷ s.log }) (call_error-IsStep _ _ _)
        λ log.
          or_undo-Has id _ (λ _. patch_annotation env aws_internet_gateway_id_annotation id)
            (record s { log = log }) (create_aws_route-IsStep id _)
            λ log'.
              patch_annotation-asks (IsAccounted id) env aws_internet_gateway_id_annotation id m
                (record s { log = log' }) has (λ r. (refl, refl)))
