-- ===== src/Controller/Azure.antt =====
-- pkg/controller/azure.go: credentials, and the deletion of a machine's resource group.
pub mod Credentials
use docker_machine_operator.Base.{String, ◌||◌, Option, none, some, if◌then◌else◌}
use docker_machine_operator.Go.Error.{other, Except, ok, err}
use docker_machine_operator.Go.Map.{GoMap, get, find}
use docker_machine_operator.Go.Text.{is_empty}
use docker_machine_operator.Api.Types.{Machine}
use docker_machine_operator.Env.Event.{
  new_credential, new_groups_client, began_delete, polled_until_done,
}
use docker_machine_operator.Env.{Env}
use docker_machine_operator.Effect.{Action, lift, call, call_error, machine, ◌>>=◌}
use docker_machine_operator.Controller.Secret.{get_secret}

abbrev pub azure_subscription_id_key_field : String
azure_subscription_id_key_field = "azure-subscription-id"

abbrev pub azure_tenant_id_key_field : String
azure_tenant_id_key_field = "azure-tenant-id"

abbrev pub azure_client_id_key_field : String
azure_client_id_key_field = "azure-client-id"

abbrev pub azure_client_secret_key_field : String
azure_client_secret_key_field = "azure-client-secret"

abbrev pub azure_resource_group_param : String
azure_resource_group_param = "azure-resource-group"

abbrev pub default_azure_resource_group : String
default_azure_resource_group = "docker-machine"

pub record AzureCredential : Type 0 where
  pub client_id : String
  pub client_secret : String
  pub tenant_id : String
  pub subscription_id : String

-- The tests of `getAzureCredential`, on the secret's data.
abbrev pub azure_credential_of : GoMap → Except AzureCredential
azure_credential_of secret =
    if is_empty (get azure_subscription_id_key_field secret)
      || (is_empty (get azure_tenant_id_key_field secret)
          || (is_empty (get azure_client_id_key_field secret)
              || is_empty (get azure_client_secret_key_field secret)))
    then err (other "auth secret not found")
    else ok (record {
      client_id = get azure_client_id_key_field secret;
      client_secret = get azure_client_secret_key_field secret;
      tenant_id = get azure_tenant_id_key_field secret;
      subscription_id = get azure_subscription_id_key_field secret;
    })

abbrev pub or_default : Option String → String
or_default none = default_azure_resource_group
or_default (some name) = name

-- A parameter that is set to the empty text counts as set.
unfoldable pub get_resource_group_name : Machine → String
get_resource_group_name m = or_default (find azure_resource_group_param m.spec.parameters)

module _ (env : Env) where
  unfoldable pub get_azure_credential : Action AzureCredential
  get_azure_credential = do
    m ← machine
    secret ← get_secret env m.spec.auth_secret
    lift (azure_credential_of secret)

  unfoldable pub delete_azure_resource_group : Action Unit
  unfolding get_azure_credential
  delete_azure_resource_group = do
    azure_cred ← get_azure_credential
    cred ←
        call
          (λ h.
            env.new_credential h azure_cred.tenant_id azure_cred.client_id azure_cred.client_secret)
          (new_credential azure_cred.tenant_id azure_cred.client_id azure_cred.client_secret)
    groups ←
        call (λ h. env.new_groups_client h azure_cred.subscription_id cred)
          (new_groups_client azure_cred.subscription_id cred)
    m ← machine
    poller ←
        call (λ h. env.begin_delete h groups (get_resource_group_name m))
          (began_delete groups (get_resource_group_name m))
    call_error (λ h. env.poll_until_done h poller) (polled_until_done poller)
