-- ===== src/Controller/Azure/Credentials.antt =====
-- When credentials for Azure are taken, pkg/controller/azure.go.
use docker_machine_operator.Base.{String, ◌≡◌, ◌↔◌, false, arith}
use docker_machine_operator.Go.Error.{ok}
use docker_machine_operator.Go.Map.{GoMap, get}
use docker_machine_operator.Go.Text.{is_empty}
use docker_machine_operator.Controller.Azure.{
  AzureCredential, azure_subscription_id_key_field, azure_tenant_id_key_field,
  azure_client_id_key_field, azure_client_secret_key_field, azure_credential_of,
}

-- A field of the credential is the entry of the secret under the key, which is there.
abbrev pub IsEntry : GoMap → String → String → Type 0
IsEntry secret key value = (value ≡ get key secret) × (is_empty value ≡ false)

-- Credentials are taken exactly when the secret has a subscription, a tenant, a client and a client
-- secret, and then they are these four.
pub azure_credential_of-IsEntry :
    (secret : GoMap) (cred : AzureCredential)
    → azure_credential_of secret ≡ ok cred ↔ (
        IsEntry secret azure_subscription_id_key_field cred.subscription_id
        × IsEntry secret azure_tenant_id_key_field cred.tenant_id
        × IsEntry secret azure_client_id_key_field cred.client_id
        × IsEntry secret azure_client_secret_key_field cred.client_secret)
azure_credential_of-IsEntry secret cred = (λ e. ground arith, λ t. ground arith)
