-- ===== src/Go/Error.antt =====
-- Go's `error` values, and results that carry one. What `kerr.IsNotFound` says of an error is a
-- parameter of the model (Env); `os.IsExist` is the standard library's.
use docker_machine_operator.Base.{
  String, ◌<>◌, Bool, true, false, ◌≡◌, refl, ◌⊎◌, inl, inr, Option, none, some,
}

pub data Error : Type 0 where
  -- an error of the Kubernetes API server, with its status reason and its message
  api : String → String → Error
  -- `fs.ErrExist` and `fs.ErrNotExist` under an `*os.PathError`
  exist : String → Error
  not_exist : String → Error
  -- any other error: a failed command, a cloud provider's answer, `errors.New`, `fmt.Errorf`
  other : String → Error
  -- `errors.Join`
  join : Error → Error → Error

-- `err.Error()`; `errors.Join` puts a newline between the messages.
abbrev pub message : Error → String
message (api reason text) = text
message (exist text) = text
message (not_exist text) = text
message (other text) = text
message (join e f) = message e <> ("\n" <> message f)

-- `os.IsExist` and `os.IsNotExist` do not look inside a joined error.
abbrev pub is_exist : Error → Bool
is_exist (exist _) = true
is_exist _ = false

abbrev pub is_not_exist : Error → Bool
is_not_exist (not_exist _) = true
is_not_exist _ = false

-- `(T, error)` where exactly one of the two is meant.
pub data Except (A : Type 0) : Type 0 where
  ok : A → Except A
  err : Error → Except A

-- `error` alone, as `Option`: `none` is nil.
abbrev pub of_error : Option Error → Except Unit
of_error none = ok tt
of_error (some e) = err e

abbrev pub error_of : {A : Type 0} → Except A → Option Error
error_of (ok a) = none
error_of (err e) = some e

-- To split on a computed result and keep the equation.
pub Except-cases :
    {A : Type 0} (r : Except A) → ((e : Error) × (r ≡ err e)) ⊎ ((a : A) × (r ≡ ok a))
Except-cases (ok a) = inr (a, refl)
Except-cases (err e) = inl (e, refl)
