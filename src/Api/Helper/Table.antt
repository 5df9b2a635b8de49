-- ===== src/Api/Helper/Table.antt =====
-- The phase of a machine as a table of rules, for api/v1alpha1/helper.go.
use docker_machine_operator.Base.{
  String, ◌==◌, eq_iff, sym, ◌⊎◌, ◌∙◌, ◌↔◌, String-cases, ne-test, ◌≡◌, ◌≢◌, refl, true, false,
  List, [], ◌∷◌, arith, Bool-cases, inl, inr,
}
use docker_machine_operator.Api.Types.{Condition, Machine, MachinePhase, get_conditions}
use docker_machine_operator.Api.Names.{ready_condition, condition_true}
use docker_machine_operator.Api.Reason
use docker_machine_operator.Api.Phase
use docker_machine_operator.Api.Helper.{
  is_zero, find_ready, phase_of_conditions, phase_of_ready, get_phase,
}

-- `c` is the first condition of type Ready in the list.
pub data FirstReady (c : Condition) : List Condition → Type 0 where
  here : {cs : List Condition} → c.kind ≡ ready_condition → FirstReady c (c ∷ cs)
  later :
      {d : Condition} {cs : List Condition}
      → d.kind ≢ ready_condition
      → FirstReady c cs
      → FirstReady c (d ∷ cs)

-- No condition of the list has type Ready.
pub data NoReady : List Condition → Type 0 where
  nil : NoReady []
  skip :
      {d : Condition} {cs : List Condition}
      → d.kind ≢ ready_condition
      → NoReady cs
      → NoReady (d ∷ cs)

abbrev pub IsDeleted : Machine → Type 0
IsDeleted m = is_zero m.deletion_timestamp ≡ false

-- The reasons that have a phase of their own.
abbrev pub NoPhaseReason : String → Type 0
NoPhaseReason r =
    (r ≢ Reason.waiting_for_script_completion)
    × (r ≢ Reason.cluster_operation_failed)
    × (r ≢ Reason.machine_creation_failed)

-- What a Ready condition says of the phase.
pub data ReadyPhase (c : Condition) : MachinePhase → Type 0 where
  success : {p : MachinePhase} → c.status ≡ condition_true → p ≡ Phase.success → ReadyPhase c p
  waiting :
      {p : MachinePhase}
      → c.status ≢ condition_true
      → c.reason ≡ Reason.waiting_for_script_completion
      → p ≡ Phase.waiting_for_script_completion
      → ReadyPhase c p
  operation_failed :
      {p : MachinePhase}
      → c.status ≢ condition_true
      → c.reason ≡ Reason.cluster_operation_failed
      → p ≡ Phase.cluster_operation_failed
      → ReadyPhase c p
  creation_failed :
      {p : MachinePhase}
      → c.status ≢ condition_true
      → c.reason ≡ Reason.machine_creation_failed
      → p ≡ Phase.failed
      → ReadyPhase c p
  in_progress :
      {p : MachinePhase}
      → c.status ≢ condition_true
      → NoPhaseReason c.reason
      → p ≡ Phase.in_progress
      → ReadyPhase c p

pub data PhaseOf (m : Machine) (p : MachinePhase) : Type 0 where
  terminating : IsDeleted m → p ≡ Phase.terminating → PhaseOf m p
  fresh : ¬ IsDeleted m → get_conditions m ≡ [] → p ≡ Phase.in_progress → PhaseOf m p
  pending :
      ¬ IsDeleted m
      → get_conditions m ≢ []
      → NoReady (get_conditions m)
      → p ≡ Phase.pending
      → PhaseOf m p
  ready :
      ¬ IsDeleted m
      → (c : Condition) → FirstReady c (get_conditions m)
      → ReadyPhase c p
      → PhaseOf m p

find_ready-FirstReady : (c : Condition) (cs : List Condition) → FirstReady c cs → find_ready cs ≡ c
find_ready-FirstReady c [] f = elim f [ ]
find_ready-FirstReady c (d ∷ cs) (here e) = ground (arith, eq_iff c.kind ready_condition)
find_ready-FirstReady c (d ∷ cs) (later ne f) =
    ground (arith, eq_iff d.kind ready_condition, find_ready-FirstReady c cs f)

FirstReady-kind : (c : Condition) (cs : List Condition) → FirstReady c cs → c.kind ≡ ready_condition
FirstReady-kind c [] f = elim f [ ]
FirstReady-kind c (d ∷ cs) (here e) = e
FirstReady-kind c (d ∷ cs) (later ne f) = FirstReady-kind c cs f

find_ready-NoReady : (cs : List Condition) → NoReady cs → (find_ready cs).kind ≢ ready_condition
find_ready-NoReady [] n = ground (arith, eq_iff "" ready_condition)
find_ready-NoReady (d ∷ cs) (skip ne n) =
    ground (arith, eq_iff d.kind ready_condition, find_ready-NoReady cs n)

-- Either the loop finds the first Ready condition, or there is none.
Ready-cases : (cs : List Condition) → ((c : Condition) × FirstReady c cs) ⊎ NoReady cs
Ready-cases [] = inr nil
Ready-cases (d ∷ cs) = elim (Bool-cases (d.kind == ready_condition)) [
  | inl e ↦ inl (d, here ((eq_iff d.kind ready_condition).0 e))
  | inr e ↦
      let ne : d.kind ≢ ready_condition = ground (arith, eq_iff d.kind ready_condition) in
      elim (Ready-cases cs) [ inl (c, f) ↦ inl (c, later ne f) | inr n ↦ inr (skip ne n) ]
]

module _ (c : Condition) (kind : (c.kind == ready_condition) ≡ true) where
  ReadyPhase-eq : (p : MachinePhase) → ReadyPhase c p → phase_of_ready c ≡ p
  ReadyPhase-eq p (success s e) = rw (kind, s) (sym e)
  ReadyPhase-eq p (waiting s r e) = rw (kind, ne-test _ _ s, r) (sym e)
  ReadyPhase-eq p (operation_failed s r e) = rw (kind, ne-test _ _ s, r) (sym e)
  ReadyPhase-eq p (creation_failed s r e) = rw (kind, ne-test _ _ s, r) (sym e)
  ReadyPhase-eq p (in_progress s (a, b, d) e) =
      rw (kind, ne-test _ _ s, ne-test _ _ a, ne-test _ _ b, ne-test _ _ d) (sym e)

  phase_of_ready-ReadyPhase : ReadyPhase c (phase_of_ready c)
  phase_of_ready-ReadyPhase = rw kind (elim (String-cases c.status condition_true) [
    | inl (t, e) ↦ rw t (success e refl)
    | inr (t, s) ↦ rw t (elim (String-cases c.reason Reason.waiting_for_script_completion) [
      | inl (t, e) ↦ rw t (waiting s e refl)
      | inr (t, a) ↦ rw t (elim (String-cases c.reason Reason.cluster_operation_failed) [
        | inl (t, e) ↦ rw t (operation_failed s e refl)
        | inr (t, b) ↦ rw t (elim (String-cases c.reason Reason.machine_creation_failed) [
          | inl (t, e) ↦ rw t (creation_failed s e refl)
          | inr (t, d) ↦ rw t (in_progress s (a, b, d) refl)
        ])
      ])
    ])
  ])

kind_test : (c : Condition) → c.kind ≡ ready_condition → (c.kind == ready_condition) ≡ true
kind_test c e = (eq_iff c.kind ready_condition).1 e

-- What the conditions alone say of the phase.
data ListPhase (cs : List Condition) (p : MachinePhase) : Type 0 where
  fresh : cs ≡ [] → p ≡ Phase.in_progress → ListPhase cs p
  pending : cs ≢ [] → NoReady cs → p ≡ Phase.pending → ListPhase cs p
  ready : (c : Condition) → FirstReady c cs → ReadyPhase c p → ListPhase cs p

ListPhase-eq :
    (cs : List Condition) (p : MachinePhase) → ListPhase cs p → phase_of_conditions cs ≡ p
ListPhase-eq [] p (fresh e q) = sym q
ListPhase-eq [] p (pending n r q) = absurd (n refl)
ListPhase-eq [] p (ready c f r) = elim f [ ]
ListPhase-eq (d ∷ cs) p (fresh e q) = absurd (cc)
ListPhase-eq (d ∷ cs) p (pending n r q) = rw (ne-test _ _ (find_ready-NoReady (d ∷ cs) r)) (sym q)
ListPhase-eq (d ∷ cs) p (ready c f r) =
    rw (find_ready-FirstReady c (d ∷ cs) f)
      (ReadyPhase-eq c (kind_test c (FirstReady-kind c (d ∷ cs) f)) p r)

phase_of_conditions-ListPhase : (cs : List Condition) → ListPhase cs (phase_of_conditions cs)
phase_of_conditions-ListPhase [] = fresh refl refl
phase_of_conditions-ListPhase (d ∷ cs) = elim (Ready-cases (d ∷ cs)) [
  | inl (c, f) ↦
      rw (find_ready-FirstReady c (d ∷ cs) f)
        (ready c f (phase_of_ready-ReadyPhase c (kind_test c (FirstReady-kind c (d ∷ cs) f))))
  | inr n ↦ rw (ne-test _ _ (find_ready-NoReady (d ∷ cs) n)) (pending (λ e. cc) n refl)
]

ListPhase-PhaseOf :
    (m : Machine) (p : MachinePhase) → ¬ IsDeleted m → ListPhase (get_conditions m) p → PhaseOf m p
ListPhase-PhaseOf m p live (fresh e q) = fresh live e q
ListPhase-PhaseOf m p live (pending n r q) = pending live n r q
ListPhase-PhaseOf m p live (ready c f r) = ready live c f r

module _ (m : Machine) where
  get_phase_live : ¬ IsDeleted m → get_phase m ≡ phase_of_conditions (get_conditions m)
  unfolding get_phase
  get_phase_live live = ground arith

  phase-PhaseOf : PhaseOf m (get_phase m)
  unfolding get_phase
  phase-PhaseOf = elim (Bool-cases (is_zero m.deletion_timestamp)) [
    | inl z ↦
        rw z (ListPhase-PhaseOf m _ (λ d. cc) (phase_of_conditions-ListPhase (get_conditions m)))
    | inr d ↦ rw d (terminating d refl)
  ]

PhaseOf-phase : (m : Machine) (p : MachinePhase) → PhaseOf m p → get_phase m ≡ p
unfolding get_phase
PhaseOf-phase m p (terminating d q) = rw d (sym q)
PhaseOf-phase m p (fresh live n q) = get_phase_live m live ∙ ListPhase-eq _ p (fresh n q)
PhaseOf-phase m p (pending live n r q) = get_phase_live m live ∙ ListPhase-eq _ p (pending n r q)
PhaseOf-phase m p (ready live c f r) = get_phase_live m live ∙ ListPhase-eq _ p (ready c f r)

-- The phase of a machine is p exactly when the table of rules gives p: Terminating if and only if
-- the machine is marked for deletion; otherwise InProgress with no conditions, Pending with
-- conditions of which none is Ready, and else what the first Ready condition says, by its status and
-- then by its reason.
pub get_phase-PhaseOf : (m : Machine) (p : MachinePhase) → (get_phase m ≡ p) ↔ PhaseOf m p
get_phase-PhaseOf m p = (λ e. rw e at (phase-PhaseOf m), PhaseOf-phase m p)
