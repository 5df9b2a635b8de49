-- ===== src/Controller/Aws/RoundTrip/Client.antt =====
-- A client for EC2 that is opened with the machine's secret, pkg/controller/aws.go.
use docker_machine_operator.Base.{◌≡◌, refl, some, ◌∷◌}
use docker_machine_operator.Go.Error.{ok}
use docker_machine_operator.Go.Map.{GoMap, get}
use docker_machine_operator.Api.Types.{ObjectReference, MachineSpec, Machine}
use docker_machine_operator.Env.Event.{History, Handle, got_secret, new_session}
use docker_machine_operator.Env.{Env}
use docker_machine_operator.Effect.{done, pure, lift, call, deref, machine, ◌>>=◌}
use docker_machine_operator.Controller.Secret.{object_key, get_secret}
use docker_machine_operator.Controller.Aws.{
  AwsAuthCredential, parameter, credentials_of, aws_region_field, get_aws_credentials,
  aws_ec2_client,
}
use docker_machine_operator.Controller.Aws.RoundTrip.{with_machine}

-- The secret that a machine of this specification names has credentials, and AWS takes them.
pub record Signs (env : Env) (c : Handle) (spec : MachineSpec) : Type 0 where
  pub ref : ObjectReference
  pub secret : GoMap
  pub cred : AwsAuthCredential
  pub auth : spec.auth_secret ≡ some ref
  pub reads : (h : History) → env.get_secret h (object_key ref) ≡ ok secret
  pub accepted : credentials_of secret (get aws_region_field spec.parameters) ≡ ok cred
  pub opens : (h : History) → env.new_session h cred.region cred.access_key cred.secret_key ≡ ok c

abbrev pub client_log :
    {env : Env} {c : Handle} {spec : MachineSpec} → Signs env c spec → History → History
client_log {c = c} signs h =
    new_session (signs.cred).region (signs.cred).access_key (signs.cred).secret_key (ok c)
    ∷ got_secret (object_key signs.ref) (ok signs.secret)
    ∷ h

pub aws_ec2_client-works :
    (env : Env) (c : Handle) (m : Machine) (signs : Signs env c m.spec) (h : History)
    → aws_ec2_client env (with_machine m h) ≡ (done c, with_machine m (client_log signs h))
unfolding aws_ec2_client get_aws_credentials get_secret parameter machine deref lift call pure ◌>>=◌
aws_ec2_client-works env c m signs h =
    rw
      (
        signs.auth,
        signs.reads h,
        signs.accepted,
        signs.opens (got_secret (object_key signs.ref) (ok signs.secret) ∷ h),
      )
      refl
