-- ===== src/Tests/Secret.antt =====
-- The theorems on credentials, at concrete secrets.
use docker_machine_operator.Base.{◌≡◌, ◌↔◌, [], ◌∷◌}
use docker_machine_operator.Go.Error.{ok}
use docker_machine_operator.Go.Map.{GoMap}
use docker_machine_operator.Controller.Azure.{
  AzureCredential, azure_subscription_id_key_field, azure_tenant_id_key_field,
  azure_client_id_key_field, azure_client_secret_key_field, azure_credential_of,
}
use docker_machine_operator.Controller.Azure.Credentials.{IsEntry, azure_credential_of-IsEntry}

abbrev azure_secret : GoMap
azure_secret =
    (azure_subscription_id_key_field, "s")
    ∷ (azure_tenant_id_key_field, "t")
    ∷ (azure_client_id_key_field, "c")
    ∷ (azure_client_secret_key_field, "k")
    ∷ []

abbrev azure_cred : AzureCredential
azure_cred = record { client_id = "c"; client_secret = "k"; tenant_id = "t"; subscription_id = "s" }

azure_credential_of-IsEntry_example : azure_credential_of azure_secret ≡ ok azure_cred ↔ (
    IsEntry azure_secret azure_subscription_id_key_field azure_cred.subscription_id
    × IsEntry azure_secret azure_tenant_id_key_field azure_cred.tenant_id
    × IsEntry azure_secret azure_client_id_key_field azure_cred.client_id
    × IsEntry azure_secret azure_client_secret_key_field azure_cred.client_secret)
azure_credential_of-IsEntry_example = azure_credential_of-IsEntry azure_secret azure_cred
