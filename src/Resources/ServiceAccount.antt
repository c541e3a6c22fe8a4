-- ===== src/Resources/ServiceAccount.antt =====
-- controllers/resources/serviceaccount.go
use nfs_provisioner_operator.Base.{String, if◌then◌else◌}
use nfs_provisioner_operator.Base.Exec.{found, failed, ask, call, pure, fail, ◌>>=◌}
use nfs_provisioner_operator.Kube.Meta.{zero_meta, named}
use nfs_provisioner_operator.Kube.Core.{ServiceAccount}
use nfs_provisioner_operator.Api.{NfsProvisioner}
use nfs_provisioner_operator.Defaults
use nfs_provisioner_operator.Cluster.{Platform, service_account}
use nfs_provisioner_operator.Resources.Common.{Method, ResourceManager}

abbrev pub get_resource_name : String
get_resource_name = "ServiceAccount"

module _ (P : Platform) where
  open P use {is_not_found, get, create, set_controller_reference}

  unfoldable pub build_service_account : NfsProvisioner → ServiceAccount
  build_service_account m = record {
    metadata =
        (set_controller_reference m (record zero_meta {
          name = Defaults.service_account;
          namespace = m.metadata.namespace;
        })).1;
  }

  unfoldable pub ensure_resource : Method P
  ensure_resource m = do
    reply ← ask (get service_account (named m.metadata.namespace Defaults.service_account))
    elim reply [
      | found _ ↦ pure tt
      | failed e ↦
          if is_not_found e then call (create service_account (build_service_account m)) else fail e
    ]

  abbrev pub new_service_account_manager : ResourceManager P
  new_service_account_manager = record {
    ensure_resource = ensure_resource;
    get_resource_name = get_resource_name;
  }
