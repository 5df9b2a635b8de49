-- ===== src/Controller/Aws.antt =====
-- pkg/controller/aws.go: constants, credentials and the client. The children have the network.
pub mod Asks
pub mod Credentials
pub mod RoundTrip
pub mod Gateway
pub mod Vpc
use docker_machine_operator.Base.{
  String, ◌==◌, Bool, ◌||◌, Option, none, some, List, [], ◌∷◌, ◌++◌, if◌then◌else◌,
}
use docker_machine_operator.Go.Error.{Error, other, message, join, Except, ok, err, error_of}
use docker_machine_operator.Go.Map.{GoMap, get}
use docker_machine_operator.Go.Text.{is_empty, contains}
use docker_machine_operator.Api.Types.{Machine}
use docker_machine_operator.Env.Event.{Handle, new_session}
use docker_machine_operator.Env.{Env}
use docker_machine_operator.Controller.Secret.{aws_driver, driver_name, get_secret}
use docker_machine_operator.Effect.{
  Action, pure, skip, fail, lift, call, attempt, machine, ◌>>=◌, ◌>>◌,
}

abbrev pub aws_access_key_field : String
aws_access_key_field = "amazonec2-access-key"

abbrev pub aws_secret_key_field : String
aws_secret_key_field = "amazonec2-secret-key"

abbrev pub aws_region_field : String
aws_region_field = "amazonec2-region"

abbrev pub aws_vpc_id_annotation : String
aws_vpc_id_annotation = "docker-machine-operator/aws-vpc"

abbrev pub aws_subnet_id_annotation : String
aws_subnet_id_annotation = "docker-machine-operator/aws-subnet"

abbrev pub aws_internet_gateway_id_annotation : String
aws_internet_gateway_id_annotation = "docker-machine-operator/aws-gateway"

abbrev pub aws_vpc_cidr : String
aws_vpc_cidr = "10.1.0.0/16"

abbrev pub allow_all_ips : String
allow_all_ips = "0.0.0.0/0"

abbrev pub default_zone : String
default_zone = "a"

abbrev pub region_parameter : String
region_parameter = "amazonec2-region"

pub record AwsAuthCredential : Type 0 where
  pub access_key : String
  pub secret_key : String
  pub region : String

-- `r.machineObj.Annotations[key]`
unfoldable pub annotation : String → Action String
annotation key = do m ← machine; pure (get key m.annotations)

-- `r.machineObj.Spec.Parameters[key]`
unfoldable pub parameter : String → Action String
parameter key = do m ← machine; pure (get key m.spec.parameters)

-- The annotations that are set become flags.
abbrev pub annotation_args : Machine → List String
annotation_args m =
    (if is_empty (get aws_vpc_id_annotation m.annotations)
      then []
      else "--amazonec2-vpc-id" ∷ get aws_vpc_id_annotation m.annotations ∷ [])
    ++ (if is_empty (get aws_subnet_id_annotation m.annotations)
        then []
        else "--amazonec2-subnet-id" ∷ get aws_subnet_id_annotation m.annotations ∷ [])

unfoldable pub get_annotations_args_for_aws : Action (List String)
unfolding driver_name
get_annotations_args_for_aws = do
  driver ← driver_name
  m ← machine
  pure (if driver == aws_driver then annotation_args m else [])

-- An error that is logged and dropped.
unfoldable pub logged : Action Unit → Action Unit
logged act = do _ ← attempt act; skip

abbrev pub unless_missing : Except Unit → Action Unit
unless_missing (ok _) = skip
unless_missing (err e) = if contains (message e) "does not exist" then skip else fail e

-- An error that says `does not exist` is dropped.
unfoldable pub ignore_missing : Action Unit → Action Unit
ignore_missing act = do r ← attempt act; unless_missing r

abbrev pub joined : Error → Option Error → Error
joined e none = e
joined e (some er) = join e er

abbrev pub after_failure : Action Unit → Except Unit → Action Unit
after_failure undo (ok _) = skip
after_failure undo (err e) = do r ← attempt undo; fail (joined e (error_of r))

-- If the action fails it is undone, and the errors are joined.
unfoldable pub or_undo : Action Unit → Action Unit → Action Unit
or_undo act undo = do r ← attempt act; after_failure undo r

-- The tests of `getAWSCredentials`, on the secret's data and the region.
abbrev pub credentials_of : GoMap → String → Except AwsAuthCredential
credentials_of secret region =
    let access_key = get aws_access_key_field secret in
    let secret_key = get aws_secret_key_field secret in
    if is_empty access_key || is_empty secret_key
    then err (other "auth secret not found")
    else if is_empty secret_key || (is_empty access_key || is_empty region)
    then err (other "failed to get aws credentials or region")
    else ok (record { access_key = access_key; secret_key = secret_key; region = region })

module _ (env : Env) where
  unfoldable pub get_aws_credentials : Action AwsAuthCredential
  unfolding lift
  get_aws_credentials = do
    m ← machine
    secret ← get_secret env m.spec.auth_secret
    region ← parameter aws_region_field
    lift (credentials_of secret region)

  -- `newAWSClientSession` and `awsEC2Client`
  unfoldable pub aws_ec2_client : Action Handle
  unfolding get_aws_credentials
  aws_ec2_client = do
    cred ← get_aws_credentials
    call (λ h. env.new_session h cred.region cred.access_key cred.secret_key)
        (new_session cred.region cred.access_key cred.secret_key)
