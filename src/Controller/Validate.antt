-- ===== src/Controller/Validate.antt =====
-- `validate` of controllers/nfsprovisioner_controller.go, in the form of its three tests.
use nfs_provisioner_operator.Base.{String, Option, none, some, ◌&&◌, ◌||◌, if◌then◌else◌, is_set}
use nfs_provisioner_operator.Api.{NfsProvisioner}

abbrev pub pvc_conflict : String
pvc_conflict = "scForPvc or hostPathDir can not set with Pvc"

abbrev pub host_path_conflict : String
host_path_conflict = "scForPvc or Pvc can not set with hostPathDir"

abbrev pub sc_conflict : String
sc_conflict = "Pvc or hostPathDir can not set with scForPvc"

-- The error's message, and `none` for nil.
unfoldable pub validate : NfsProvisioner → Option String
validate m =
    let pvc = m.spec.pvc in
    let sc = m.spec.sc_for_nfs_pvc in
    let host_path_dir = m.spec.host_path_dir in
    if is_set pvc && (is_set sc || is_set host_path_dir)
    then some pvc_conflict
    else if is_set host_path_dir && (is_set sc || is_set pvc)
    then some host_path_conflict
    else if is_set sc && (is_set pvc || is_set host_path_dir)
    then some sc_conflict
    else none
