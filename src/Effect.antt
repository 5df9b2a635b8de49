-- ===== src/Effect.antt =====
-- The reconciler's methods as actions: they read and write `r.machineObj`, call out, and return, fail
-- with an error, or abort. What was written before an error stays written.
pub mod Footprint
pub mod Returns
pub mod ReadOnly
pub mod Triple
pub mod Answers
pub mod Costs
pub mod Within
pub mod Staged
use docker_machine_operator.Base.{String, Option, none, some, List, ◌∷◌}
use docker_machine_operator.Go.Error.{Error, Except, ok, err, of_error}
use docker_machine_operator.Api.Types.{Machine}
use docker_machine_operator.Env.Event.{Event, History}

-- `r.machineObj`, which stays as the last reconcile left it, and the calls so far.
pub record State : Type 0 where
  pub machine_obj : Option Machine
  pub log : History

pub data Fault : Type 0 where
  -- a nil pointer is dereferenced
  nil_dereference : Fault
  -- a loop of the model used up its fuel
  out_of_fuel : Fault

pub data Outcome (A : Type 0) : Type 0 where
  done : A → Outcome A
  failed : Error → Outcome A
  aborted : Fault → Outcome A

abbrev pub Action : Type 0 → Type 0
Action A = State → Outcome A × State

module _ {A : Type 0} where
  unfoldable pub pure : A → Action A
  pure a s = (done a, s)

  unfoldable pub fail : Error → Action A
  fail e s = (failed e, s)

  unfoldable pub abort : Fault → Action A
  abort f s = (aborted f, s)

  -- `(T, error)` that is returned as it is
  abbrev pub outcome_of : Except A → Outcome A
  outcome_of (ok a) = done a
  outcome_of (err e) = failed e

  -- `(T, error)` of a computation that makes no call
  unfoldable pub lift : Except A → Action A
  lift r s = (outcome_of r, s)

  -- A call that leaves the program: its answer, and the event that records it.
  unfoldable pub call : (History → Except A) → (Except A → Event) → Action A
  call ask note s =
      let answer = ask s.log in (outcome_of answer, record s { log = note answer ∷ s.log })

  abbrev pub attempted : Outcome A → Outcome (Except A)
  attempted (done a) = done (ok a)
  attempted (failed e) = done (err e)
  attempted (aborted f) = aborted f

  -- `a, err := f()`, where what follows handles the error itself
  unfoldable pub attempt : Action A → Action (Except A)
  attempt m s = let (r, s') = m s in (attempted r, s')

-- A call that answers with an error or nil.
unfoldable pub call_error : (History → Option Error) → (Option Error → Event) → Action Unit
call_error ask note s =
    let answer = ask s.log in (outcome_of (of_error answer), record s { log = note answer ∷ s.log })

-- A call whose answer is data in any case.
unfoldable pub call_value : {A : Type 0} → (History → A) → (A → Event) → Action A
call_value ask note s =
    let answer = ask s.log in (done answer, record s { log = note answer ∷ s.log })

module _ {A B : Type 0} where
  abbrev pub continue : Outcome A → (A → Action B) → Action B
  continue (done a) f s = f a s
  continue (failed e) f s = (failed e, s)
  continue (aborted x) f s = (aborted x, s)

  infixl 10 ◌>>=◌ ◌>>◌
  unfoldable pub ◌>>=◌ : Action A → (A → Action B) → Action B
  ◌>>=◌ m f s = let (r, s') = m s in continue r f s'

  abbrev pub ◌>>◌ : Action A → Action B → Action B
  m >> n = m >>= λ _. n

-- `r.machineObj`, read through: a nil pointer aborts.
or_abort : {A : Type 0} → Option A → Outcome A
or_abort none = aborted nil_dereference
or_abort (some a) = done a

unfoldable pub deref : {A : Type 0} → Option A → Action A
unfolding or_abort
deref o s = (or_abort o, s)

unfoldable pub machine : Action Machine
unfolding or_abort
machine s = (or_abort s.machine_obj, s)

-- `r.machineObj` is pointed elsewhere, or the object behind it is overwritten.
unfoldable pub set_machine : Machine → Action Unit
set_machine m s = (done tt, record s { machine_obj = some m })

-- Nothing happens: a branch that is not taken.
unfoldable pub skip : Action Unit
unfolding pure
skip = pure tt
