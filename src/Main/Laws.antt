-- ===== src/Main/Laws.antt =====
-- With which schemes the program makes its manager.
use nfs_provisioner_operator.Base.{Option, none, some, ℕ, true, ◌≡◌, refl, ap}
use nfs_provisioner_operator.Base.Exec.{Outcome, ok, err, panic, Exec, continue, pure, ◌>>◌}
use nfs_provisioner_operator.Cluster.{Platform}
use nfs_provisioner_operator.Scheme.{SchemeLibrary, IsScheme, GoType, group_version}
use nfs_provisioner_operator.Resources.Manager.{new_resource_manager_set}
use nfs_provisioner_operator.Controller.Reconcile.{reconcile}
use nfs_provisioner_operator.Main.{
  Runtime, Flags, ManagerOptions, Step, Process, around, or_exit, exit_on, manager_options,
  setup_with_manager, make_manager, init, main, program,
}
use nfs_provisioner_operator.Main.Registration.{init-recognizes}

module _ (P : Platform) (S : SchemeLibrary) (T : Runtime P S) where
  -- The scheme recognizes the resource and the list under the custom resource's group and version.
  abbrev pub IsRegistered : S.Scheme → Type 0
  IsRegistered scheme = (t : GoType) → S.recognizes scheme group_version t ≡ true

  abbrev pub Making : Type 0
  Making = S.Scheme → ManagerOptions → Step T.State T.Error

  -- The runtime with another `NewManager`.
  abbrev pub with_making : Making → Runtime P S
  with_making f = record T { new_manager = f }

  -- What follows `NewManager` in `main`, and what follows the configuration.
  abbrev after_manager : Exec (Process P S T) ℕ (Unit {0})
  after_manager = do
    or_exit (around P S T (setup_with_manager P S T (reconcile P (new_resource_manager_set P))))
    or_exit (around P S T (T.add_healthz_check "healthz"))
    or_exit (around P S T (T.add_readyz_check "readyz"))
    or_exit (around P S T T.start)
    pure tt

  abbrev after_config : Making → Flags → Exec (Process P S T) ℕ (Unit {0})
  after_config f flags = or_exit (make_manager P S (with_making f) flags) >> after_manager

  module _ (L : IsScheme S) (f g : Making)
      (agree : (scheme : S.Scheme) (options : ManagerOptions) (s : T.State)
        → IsRegistered scheme
        → f scheme options s ≡ g scheme options s) where
    made_alike :
        (flags : Flags) (scheme : S.Scheme) (e : Option T.Error) (s : T.State)
        → IsRegistered scheme
        → continue (exit_on e) (λ _. after_config f flags) (scheme, s)
          ≡ continue (exit_on e) (λ _. after_config g flags) (scheme, s)
    made_alike flags scheme (some e) s registered = refl
    made_alike flags scheme none s registered =
        ap
          (λ (p : Option T.Error × T.State).
            continue (exit_on p.0) (λ _. after_manager) (scheme, p.1))
          (agree scheme (manager_options flags) s registered)

    main-registered :
        (flags : Flags) (scheme : S.Scheme) (s : T.State)
        → IsRegistered scheme
        → main P S (with_making f) flags (scheme, s) ≡ main P S (with_making g) flags (scheme, s)
    unfolding main
    main-registered flags scheme s = made_alike flags scheme (T.get_config s).0 (T.get_config s).1

    after_init :
        (flags : Flags) (o : Outcome ℕ (Unit {0})) (scheme : S.Scheme) (s : T.State)
        → (o ≡ ok tt → IsRegistered scheme)
        → continue o (λ _. main P S (with_making f) flags) (scheme, s)
          ≡ continue o (λ _. main P S (with_making g) flags) (scheme, s)
    after_init flags (ok _) scheme s registered = main-registered flags scheme s (registered refl)
    after_init flags (err e) scheme s registered = refl
    after_init flags panic scheme s registered = refl

    -- If two ways to make a manager do the same with every scheme that recognizes both types of the
    -- package, the resource and the list, under the group and version of the custom resource, then
    -- the program, from `init` to the end of `main`, has the same outcome and ends in the same
    -- state with either: it makes its manager with no other scheme.
    pub program-registered :
        (flags : Flags) (scheme : S.Scheme) (s : T.State)
        → program P S (with_making f) flags (scheme, s)
          ≡ program P S (with_making g) flags (scheme, s)
    unfolding program
    program-registered flags scheme s =
        after_init flags (init S scheme).0 (init S scheme).1 s
          (λ fine t. init-recognizes S L scheme t fine)
