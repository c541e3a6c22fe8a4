-- ===== src/Controller/Strings.antt =====
-- The helpers on slices of strings in controllers/nfsprovisioner_controller.go.
use nfs_provisioner_operator.Base.{String, Bool, true, false, List, [], ◌∷◌, if◌then◌else◌, ◌==◌}

unfoldable pub contains_string : List String → String → Bool
contains_string [] s = false
contains_string (item ∷ slice) s = if item == s then true else contains_string slice s

unfoldable pub remove_string : List String → String → List String
remove_string [] s = []
remove_string (item ∷ slice) s =
    let result = remove_string slice s in if item == s then result else item ∷ result
