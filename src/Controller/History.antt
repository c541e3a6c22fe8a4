-- ===== src/Controller/History.antt =====
-- Sequences of runs, in any order of requests and with any failures.
use nfs_provisioner_operator.Base.{
  none, some, ◌≡◌, ◌≢◌, refl, sym, ap, subst, inl, inr, Option, Bool-cases, Option-cases,
}
use nfs_provisioner_operator.Base.Lists.{Elem}
use nfs_provisioner_operator.Base.Exec.{Reply, found, failed}
use nfs_provisioner_operator.Kube.Meta.{NamespacedName}
use nfs_provisioner_operator.Api.{NfsProvisioner}
use nfs_provisioner_operator.Cluster.{Kind, Object, Platform, nfs_provisioner}
use nfs_provisioner_operator.Cluster.Laws.{View, IsLawful, HasHelpers, IsOther, key}
use nfs_provisioner_operator.Cluster.Growth.{Grows, Grows-refl, Grows-trans}
use nfs_provisioner_operator.Resources.Manager.{new_resource_manager_set}
use nfs_provisioner_operator.Resources.All.{ensure_all, ensure_all_resources-Growing}
use nfs_provisioner_operator.Controller.Validate.{validate}
use nfs_provisioner_operator.Controller.CleanupLaws.{external}
use nfs_provisioner_operator.Controller.Reconcile.{register, finalize}
use nfs_provisioner_operator.Controller.Steps.{
  start, run, ensured, start-found, reconcile-unread, reconcile-invalid_frame,
}
use nfs_provisioner_operator.Controller.Frame.{register-frame, finalize-other}
use nfs_provisioner_operator.Controller.Deletion.{reconcile_parts}

-- The object of a kind and name, perhaps with more users.
abbrev pub Kept : (k : Kind) → NamespacedName → Object k → View → Type 0
Kept k n x v = (y : Object k) × (v k n ≡ some y) × Grows k x y

module _ (P : Platform) where
  -- One run after the other, each on a request of its own, and each whatever its outcome.
  pub data Runs : P.State → P.State → Type 0 where
    stop : (s : P.State) → Runs s s
    next : (req : NamespacedName) (s t : P.State) → Runs (run P req s).1 t → Runs s t

module _ (P : Platform) (L : IsLawful P) (H : HasHelpers P) where
  open P use {State, Error, get, is_zero}
  open L use {view, view-get}

  -- What `EnsureAllResources` keeps of an object, every run keeps, unless the object is a custom
  -- resource or may be deleted.
  module _ (k : Kind) (n : NamespacedName) (other : k ≢ nfs_provisioner)
      (kept : ¬ Elem (k, n) external) (R : Option (Object k) → Type 0)
      (ensures : (m : NfsProvisioner) (s : State)
        → validate m ≡ none
        → R (view s k n)
        → R (view (ensure_all P m s).1 k n)) where
    same : (v w : View) → w k n ≡ v k n → R (v k n) → R (w k n)
    same v w e r = subst R (sym e) r

    module _ (req : NamespacedName) (s : State) (here : R (view s k n)) where
      differs : IsOther nfs_provisioner req k n
      differs q = other q.0

      read : R (view (start P req s) k n)
      read =
          same (view s) (view (start P req s))
            (ap (λ (v : View). v k n) (view-get nfs_provisioner req s)) here

      valid_run :
          (m : NfsProvisioner)
          → (get nfs_provisioner req s).0 ≡ found m
          → validate m ≡ none
          → R (view (run P req s).1 k n)
      valid_run m seen valid =
          reconcile_parts P L H req s m seen valid (λ p. R (view p.1 k n)) (λ _ _. after)
            (λ _. elim (Bool-cases (is_zero m.metadata.deletion_timestamp)) [
              | inl p ↦ rw p (
                  same (view (ensured P m req s)) (view (register P m (ensured P m req s)).1)
                    (register-frame P L H m req named_req k n differs (ensured P m req s)) after)
              | inr p ↦ rw p (
                  same (view (ensured P m req s)) (view (finalize P m (ensured P m req s)).1)
                    (finalize-other P L H m req named_req k n differs (ensured P m req s) kept)
                    after)
            ])
        where
          named_req : key nfs_provisioner m ≡ req
          named_req = (start-found P (new_resource_manager_set P) req s L m seen).1

          after : R (view (ensured P m req s) k n)
          after = ensures m (start P req s) valid read

      any_run : R (view (run P req s).1 k n)
      any_run = by_reply (get nfs_provisioner req s).0 refl
        where
          by_reply :
              (reply : Reply Error NfsProvisioner)
              → (get nfs_provisioner req s).0 ≡ reply
              → R (view (run P req s).1 k n)
          by_reply (failed e) missed =
              rw (reconcile-unread P (new_resource_manager_set P) req s H e missed) read
          by_reply (found m) seen = elim (Option-cases (validate m)) [
            | inl valid ↦ valid_run m seen valid
            | inr (message, invalid) ↦
                same (view s) (view (run P req s).1)
                  (reconcile-invalid_frame P (new_resource_manager_set P) req s L m message k n seen
                    invalid differs)
                  here
          ]

    pub Runs_rule : (s t : State) → Runs P s t → R (view s k n) → R (view t k n)
    Runs_rule s t (stop _) here = here
    Runs_rule s t (next req _ _ rest) here = Runs_rule (run P req s).1 t rest (any_run req s here)

  -- Over any sequence of runs, on whichever resources and whatever their outcomes, an object of the
  -- cluster stays as it is, unless it is a custom resource, the cluster role or its binding. Of
  -- security context constraints, every setting stays as it is and every user stays listed; there
  -- may be more users, and nothing is said of their metadata.
  pub Runs-Kept :
      (k : Kind) (n : NamespacedName) (x : Object k) (s t : State)
      → k ≢ nfs_provisioner
      → ¬ Elem (k, n) external
      → view s k n ≡ some x
      → Runs P s t
      → Kept k n x (view t)
  Runs-Kept k n x s t other kept here runs =
      Runs_rule k n other kept (λ o. (y : Object k) × (o ≡ some y) × Grows k x y)
        (λ m u _ (y, there, first).
          let (z, later, second) = (ensure_all_resources-Growing P L H m u).at k n y there in
          (z, later, Grows-trans k x y z first second))
        s t runs (x, here, Grows-refl k x)
