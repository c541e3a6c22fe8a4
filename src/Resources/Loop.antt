-- ===== src/Resources/Loop.antt =====
-- How the loop of `EnsureAllResources` goes through the managers.
use nfs_provisioner_operator.Base.{List, [], ◌∷◌, ◌++◌, ◌≡◌, ◌≢◌, refl, ◌∙◌}
use nfs_provisioner_operator.Base.Exec.{Outcome, ok, err, panic, Exec, continue, ◌>>◌}
use nfs_provisioner_operator.Api.{NfsProvisioner}
use nfs_provisioner_operator.Cluster.{Platform}
use nfs_provisioner_operator.Resources.Common.{ResourceManager}
use nfs_provisioner_operator.Resources.Manager.{ensure_each}

module _ (P : Platform) (m : NfsProvisioner) where
  open P use {State, Error}

  continue_twice :
      (x y : Exec State Error (Unit {0})) (r : Outcome Error (Unit {0})) (t : State)
      → continue r (λ _. x >> y) t
        ≡ continue (continue r (λ _. x) t).0 (λ _. y) (continue r (λ _. x) t).1
  continue_twice x y (ok a) t = refl
  continue_twice x y (err e) t = refl
  continue_twice x y panic t = refl

  continue_same :
      (x y : Exec State Error (Unit {0})) (r : Outcome Error (Unit {0})) (t : State)
      → ((s : State) → x s ≡ y s)
      → continue r (λ _. x) t ≡ continue r (λ _. y) t
  continue_same x y (ok a) t same = same t
  continue_same x y (err e) t same = refl
  continue_same x y panic t same = refl

  continue_stop :
      (x : Exec State Error (Unit {0})) (r : Outcome Error (Unit {0})) (t : State)
      → r ≢ ok tt
      → continue r (λ _. x) t ≡ (r, t)
  continue_stop x (ok a) t failed = absurd (failed refl)
  continue_stop x (err e) t failed = refl
  continue_stop x panic t failed = refl

  -- The loop over two lists is the loop over the first and then over the second.
  ensure_each-append :
      (managers more : List (ResourceManager P)) (s : State)
      → ensure_each P (managers ++ more) m s ≡ (ensure_each P managers m >> ensure_each P more m) s
  unfolding ensure_each
  ensure_each-append [] more s = refl
  ensure_each-append (manager ∷ managers) more s =
      let t = (manager.ensure_resource m s).1 in
      continue_same _ _ (manager.ensure_resource m s).0 t (ensure_each-append managers more)
      ∙ continue_twice (ensure_each P managers m) (ensure_each P more m)
          (manager.ensure_resource m s).0 t

  -- If the managers of a list do not all succeed, the loop over that list and any further managers
  -- ends with the same outcome and in the same state as the loop over the list alone: no manager
  -- after one that fails is run.
  pub ensure_each-stops :
      (managers more : List (ResourceManager P)) (s : State)
      → (ensure_each P managers m s).0 ≢ ok tt
      → ensure_each P (managers ++ more) m s ≡ ensure_each P managers m s
  ensure_each-stops managers more s failed =
      ensure_each-append managers more s ∙ continue_stop (ensure_each P more m) _ _ failed
