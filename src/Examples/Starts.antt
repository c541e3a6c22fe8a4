-- ===== src/Examples/Starts.antt =====
-- Starts of the program on a runtime whose next calls are told to fail or not.
use nfs_provisioner_operator.Base.{
  Bool, true, false, none, some, List, [], ◌∷◌, Option, if◌then◌else◌, refl, ◌≡◌,
}
use nfs_provisioner_operator.Cluster.Memory.{memory}
use nfs_provisioner_operator.Scheme.{add_to_scheme, group_version, nfs_provisioner}
use nfs_provisioner_operator.Examples.Types.{known_types, known_types-IsScheme, no_types}
use nfs_provisioner_operator.Main.Registration.{init-recognizes}
use nfs_provisioner_operator.Main.{Runtime, ManagerOptions, default_flags, init, program}
use nfs_provisioner_operator.Main.Laws.{Making, with_making, IsRegistered, program-registered}

-- The state lists which of the next calls fail.
abbrev answer : List Bool → Option Bool × List Bool
answer [] = (none, [])
answer (true ∷ rest) = (some true, rest)
answer (false ∷ rest) = (none, rest)

abbrev told : Runtime memory known_types
told = record {
  State = List Bool;
  Error = Bool;
  get_config = answer;
  new_manager = λ scheme o. answer;
  complete = λ t r. answer;
  add_healthz_check = λ n. answer;
  add_readyz_check = λ n. answer;
  start = answer;
}

abbrev third_fails : List Bool
third_fails = false ∷ false ∷ true ∷ []

-- A manager that cannot be made without the resource's type, and one that fails in another way then.
abbrev choosy : Bool → Making memory known_types told
choosy which scheme o s =
    if scheme group_version nfs_provisioner then answer s else (some which, [])

choosy-agree :
    (scheme : known_types.Scheme) (o : ManagerOptions) (s : List Bool)
    → IsRegistered memory known_types told scheme
    → choosy true scheme o s ≡ choosy false scheme o s
choosy-agree scheme o s registered = rw (registered nfs_provisioner) refl

program-registered_example :
    program memory known_types
      (with_making memory known_types told (choosy true))
      default_flags
      (no_types, third_fails)
    ≡ program memory known_types
        (with_making memory known_types told (choosy false))
        default_flags
        (no_types, third_fails)
program-registered_example =
    program-registered memory known_types told known_types-IsScheme (choosy true) (choosy false)
      choosy-agree default_flags no_types third_fails

init-recognizes_example : (init known_types no_types).1 group_version nfs_provisioner ≡ true
unfolding init add_to_scheme
init-recognizes_example =
    init-recognizes known_types known_types-IsScheme no_types nfs_provisioner refl
