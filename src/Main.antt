-- ===== src/Main.antt =====
-- cmd/main.go: the steps from the registration of the types to the start of the manager. What is
-- logged is left out.
pub mod Laws
pub mod Registration
use nfs_provisioner_operator.Base.{ℕ, String, Bool, true, false, none, some, Option, List, [], ◌∷◌}
use nfs_provisioner_operator.Kube.Meta.{NamespacedName}
use nfs_provisioner_operator.Cluster.{Platform}
use nfs_provisioner_operator.Resources.Manager.{new_resource_manager_set}
use nfs_provisioner_operator.Controller.Reconcile.{ReconcileResult, reconcile}
use nfs_provisioner_operator.Scheme.{SchemeLibrary, GoType, nfs_provisioner, add_to_scheme}
use nfs_provisioner_operator.Base.Exec.{Outcome, ok, err, panic, Exec, pure, ◌>>=◌, ◌>>◌}

-- The command line, after `flag.Parse`.
pub record Flags : Type 0 where
  pub metrics_addr : String
  pub enable_leader_election : Bool
  pub development : Bool

abbrev pub default_flags : Flags
default_flags = record {
  metrics_addr = ":8080";
  enable_leader_election = false;
  development = false;
}

-- `ctrl.Options`; the scheme is an argument of its own.
pub record ManagerOptions : Type 0 where
  pub metrics_bind_address : String
  pub webhook_port : ℕ
  pub health_probe_bind_address : String
  pub leader_election : Bool
  pub leader_election_id : String
  pub leader_election_release_on_cancel : Bool

-- What controller-runtime does: each call answers an error or nil, and `get_config` stands for
-- `GetConfigOrDie`, which exits where it has an error. `complete` builds the controller of a type
-- with a reconciler, `NewControllerManagedBy(mgr).For(type).Complete(reconciler)`.
pub record Runtime (P : Platform) (S : SchemeLibrary) : Type 1 where
  pub State : Type 0
  pub Error : Type 0
  pub get_config : State → Option Error × State
  pub new_manager : S.Scheme → ManagerOptions → State → Option Error × State
  pub complete :
      GoType
      → (NamespacedName → Exec P.State P.Error ReconcileResult)
      → State
      → Option Error × State
  pub add_healthz_check : String → State → Option Error × State
  pub add_readyz_check : String → State → Option Error × State
  pub start : State → Option Error × State

abbrev pub manager_options : Flags → ManagerOptions
manager_options flags = record {
  metrics_bind_address = flags.metrics_addr;
  webhook_port = 9443;
  health_probe_bind_address = ":8081";
  leader_election = flags.enable_leader_election;
  leader_election_id = "nfs-provisioner-lock";
  leader_election_release_on_cancel = true;
}

-- A call that gives an error or nil.
abbrev pub Step : Type 0 → Type 0 → Type 0
Step State Error = State → Option Error × State

-- `utilruntime.Must`
abbrev pub panic_on : {Error : Type 0} → Option Error → Outcome ℕ (Unit {0})
panic_on none = ok tt
panic_on (some _) = panic

-- `if err != nil { os.Exit(1) }`: the outcome is the exit code.
abbrev pub exit_on : {Error : Type 0} → Option Error → Outcome ℕ (Unit {0})
exit_on none = ok tt
exit_on (some _) = err 1

module _ {State Error : Type 0} where
  abbrev pub must : Step State Error → Exec State ℕ (Unit {0})
  must step s = let (e, t) = step s in (panic_on e, t)

  -- `if err := step(); err != nil { os.Exit(1) }`
  abbrev pub or_exit : Step State Error → Exec State ℕ (Unit {0})
  or_exit step s = let (e, t) = step s in (exit_on e, t)

module _ (S : SchemeLibrary) where
  -- The state is the variable `scheme`.
  unfoldable pub init : Exec S.Scheme ℕ (Unit {0})
  init = do must S.client_go; must (add_to_scheme S); must S.security_v1

module _ (P : Platform) (S : SchemeLibrary) (T : Runtime P S) where
  -- `SetupWithManager` of the controller.
  abbrev pub setup_with_manager :
      (NamespacedName → Exec P.State P.Error ReconcileResult) → Step T.State T.Error
  setup_with_manager reconciler = T.complete nfs_provisioner reconciler

  -- The package variable `scheme`, and all else.
  abbrev pub Process : Type 0
  Process = S.Scheme × T.State

  -- A call that leaves the variable as it is.
  abbrev pub around : Step T.State T.Error → Step Process T.Error
  around step (scheme, s) = let (e, t) = step s in (e, (scheme, t))

  abbrev pub make_manager : Flags → Step Process T.Error
  make_manager flags (scheme, s) =
      let (e, t) = T.new_manager scheme (manager_options flags) s in (e, (scheme, t))

  unfoldable pub main : Flags → Exec Process ℕ (Unit {0})
  main flags = do
    or_exit (around T.get_config)
    or_exit (make_manager flags)
    or_exit (around (setup_with_manager (reconcile P (new_resource_manager_set P))))
    or_exit (around (T.add_healthz_check "healthz"))
    or_exit (around (T.add_readyz_check "readyz"))
    or_exit (around T.start)
    pure tt

  abbrev pub run_init : Exec Process ℕ (Unit {0})
  run_init (scheme, s) = let (o, after) = init S scheme in (o, (after, s))

  -- The program: the package's `init` runs before `main`.
  unfoldable pub program : Flags → Exec Process ℕ (Unit {0})
  unfolding main
  program flags = do run_init; main flags
