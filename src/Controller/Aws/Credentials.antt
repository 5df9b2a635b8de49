-- ===== src/Controller/Aws/Credentials.antt =====
-- When credentials for AWS are taken, pkg/controller/aws.go.
use docker_machine_operator.Base.{String, ◌≡◌, ◌↔◌, false, arith}
use docker_machine_operator.Go.Error.{ok}
use docker_machine_operator.Go.Map.{GoMap, get}
use docker_machine_operator.Go.Text.{is_empty}
use docker_machine_operator.Controller.Aws.{
  AwsAuthCredential, aws_access_key_field, aws_secret_key_field, credentials_of,
}

-- The two keys of the secret and the region are there, and the credential has them.
abbrev pub IsTaken : GoMap → String → AwsAuthCredential → Type 0
IsTaken secret region cred =
    (is_empty cred.access_key ≡ false)
    × (is_empty cred.secret_key ≡ false)
    × (is_empty cred.region ≡ false)
    × (cred.access_key ≡ get aws_access_key_field secret)
    × (cred.secret_key ≡ get aws_secret_key_field secret)
    × (cred.region ≡ region)

-- Although the source tests the keys twice, credentials are taken exactly when both keys of the secret
-- and the region are there, and then they are these three.
pub credentials_of-IsTaken :
    (secret : GoMap) (region : String) (cred : AwsAuthCredential)
    → credentials_of secret region ≡ ok cred ↔ IsTaken secret region cred
credentials_of-IsTaken secret region cred = (λ e. ground arith, λ t. ground arith)
