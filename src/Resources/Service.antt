-- ===== src/Resources/Service.antt =====
-- controllers/resources/service.go
use nfs_provisioner_operator.Base.{ℕ, String, List, [], ◌∷◌, if◌then◌else◌}
use nfs_provisioner_operator.Base.Exec.{found, failed, ask, call, pure, fail, ◌>>=◌}
use nfs_provisioner_operator.Kube.Meta.{zero_meta, named}
use nfs_provisioner_operator.Kube.Core.{Service, ServicePort}
use nfs_provisioner_operator.Api.{NfsProvisioner}
use nfs_provisioner_operator.Defaults
use nfs_provisioner_operator.Cluster.{Platform, service}
use nfs_provisioner_operator.Resources.Common.{Method, ResourceManager}
use nfs_provisioner_operator.Resources.Deployment.{labels_for_nfs_provisioner}

abbrev pub get_resource_name : String
get_resource_name = "Service"

abbrev port : String → ℕ → String → ServicePort
port name number protocol = record { name = name; port = number; protocol = protocol }

-- A port whose protocol is left out has the empty one, which the server reads as TCP.
abbrev pub service_ports : List ServicePort
service_ports =
    port "nfs" 2049 ""
    ∷ port "nfs-udp" 2049 "UDP"
    ∷ port "nlockmgr" 32803 ""
    ∷ port "nlockmgr-udp" 32803 "UDP"
    ∷ port "mountd" 20048 ""
    ∷ port "mountd-udp" 20048 "UDP"
    ∷ port "rquotad" 875 ""
    ∷ port "rquotad-udp" 875 "UDP"
    ∷ port "rpcbind" 111 ""
    ∷ port "rpcbind-udp" 111 "UDP"
    ∷ port "statd" 662 ""
    ∷ port "statd-udp" 662 "UDP"
    ∷ []

module _ (P : Platform) where
  open P use {is_not_found, get, create, set_controller_reference}

  unfoldable pub build_service : NfsProvisioner → Service
  build_service m =
      let ls = labels_for_nfs_provisioner m.metadata.name in
      record {
        metadata =
            (set_controller_reference m (record zero_meta {
              name = Defaults.service;
              namespace = m.metadata.namespace;
              labels = ls;
            })).1;
        ports = service_ports;
        selector = ls;
      }

  unfoldable pub ensure_resource : Method P
  ensure_resource m = do
    reply ← ask (get service (named m.metadata.namespace Defaults.service))
    elim reply [
      | found _ ↦ pure tt
      | failed e ↦ if is_not_found e then call (create service (build_service m)) else fail e
    ]

  abbrev pub new_service_manager : ResourceManager P
  new_service_manager = record {
    ensure_resource = ensure_resource;
    get_resource_name = get_resource_name;
  }
