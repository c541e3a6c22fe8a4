-- ===== src/Resources/Common.antt =====
-- controllers/resources/common.go: what the managers have in common. The client, the logger and the
-- scheme of `BaseResourceManager` are the platform `P`; what is logged is left out.
use nfs_provisioner_operator.Base.{String}
use nfs_provisioner_operator.Base.Exec.{Exec}
use nfs_provisioner_operator.Api.{NfsProvisioner}
use nfs_provisioner_operator.Cluster.{Platform}

-- A method that returns an `error`.
abbrev pub Method : Platform → Type 0
Method P = NfsProvisioner → Exec P.State P.Error (Unit {0})

pub record ResourceManager (P : Platform) : Type 0 where
  pub ensure_resource : Method P
  pub get_resource_name : String
