-- ===== src/Controller/Permissions/Guarded.antt =====
-- The guarded client meets the laws of the client that it guards.
use mathlib.Core.Option.{some-ne-none}
use nfs_provisioner_operator.Base.{
  List, [], Bool, true, false, Option, none, some, ◌≡◌, refl, if◌then◌else◌,
}
use nfs_provisioner_operator.Base.Exec.{Reply, found, failed}
use nfs_provisioner_operator.Api.{NfsProvisioner}
use nfs_provisioner_operator.Cluster.{Kind, Object, meta, Platform, nfs_provisioner}
use nfs_provisioner_operator.Cluster.Laws.{IsLawful, HasHelpers, IsHeld, Stored, key}
use nfs_provisioner_operator.Controller.Permissions.{Marker, may, may_update_status, guard}

-- What holds of a call and of its refusal holds of the guarded call.
pub guarded_rule :
    {A : Type 0} (R : A → Type 0) (b : Bool) (call refusal : A)
    → R call
    → R refusal
    → R (if b then call else refusal)
guarded_rule R true call refusal made refused = made
guarded_rule R false call refusal made refused = refused

abbrev Read : (P : Platform) → Kind → Type 0
Read P k = Reply P.Error (Object k) × P.State

abbrev Wrote : Platform → Type 0
Wrote P = Option P.Error × P.State

-- A refusal is no object, and says nothing of the cluster.
pub refusal-found : {E A C : Type 0} (e : E) (o : A) → ◌≡◌ {A = Reply E A} (failed e) (found o) → C
refusal-found e o h = cc

pub refusal-visible :
    {A C : Type 0} (P : Platform) (refused e : P.Error)
    → P.is_not_found refused ≡ false
    → ◌≡◌ {A = Reply P.Error A} (failed refused) (failed e)
    → P.is_not_found e ≡ true
    → C
refusal-visible P refused e visible h missing = cc

module _ (ms : List Marker) (P : Platform) (L : IsLawful P) (forbidden : P.Error)
    (visible : P.is_not_found forbidden ≡ false) where
  open L use {view}

  unfoldable pub guard-IsLawful : IsLawful (guard ms P forbidden)
  guard-IsLawful = record {
    view = view;
    view-get = λ k n s.
        guarded_rule (λ (p : Read P k). view p.1 ≡ view s) (may ms "get" k) _ _ (L.view-get k n s)
          refl;
    get-found = λ k n s o.
        guarded_rule (λ (p : Read P k). p.0 ≡ found o → view s k n ≡ some o) (may ms "get" k) _ _
          (L.get-found k n s o) (λ h. refusal-found _ _ h);
    get-missing = λ k n s e.
        guarded_rule
          (λ (p : Read P k). p.0 ≡ failed e → P.is_not_found e ≡ true → view s k n ≡ none)
          (may ms "get" k) _ _ (L.get-missing k n s e)
          (λ h missing. refusal-visible P _ _ visible h missing);
    create-other = λ k o s j i other.
        guarded_rule (λ (p : Wrote P). view p.1 j i ≡ view s j i) (may ms "create" k) _ _
          (L.create-other k o s j i other) refl;
    create-keeps = λ k o s j i x e.
        guarded_rule (λ (p : Wrote P). view p.1 j i ≡ some x) (may ms "create" k) _ _
          (L.create-keeps k o s j i x e) e;
    create-done = λ k o s.
        guarded_rule
          (λ (p : Wrote P).
            p.0 ≡ none → (x : Object k) × (view p.1 k (key k o) ≡ some x) × Stored k o x)
          (may ms "create" k) _ _ (L.create-done k o s) (λ h. absurd (some-ne-none _ h));
    create-failed = λ k o s e.
        guarded_rule (λ (p : Wrote P). p.0 ≡ some e → view p.1 ≡ view s) (may ms "create" k) _ _
          (L.create-failed k o s e) (λ h. refl);
    update-other = λ k o s j i other.
        guarded_rule (λ (p : Wrote P). view p.1 j i ≡ view s j i) (may ms "update" k) _ _
          (L.update-other k o s j i other) refl;
    update-done = λ k o s x.
        guarded_rule (λ (p : Wrote P). p.0 ≡ none → view p.1 k (key k o) ≡ some x → Stored k o x)
          (may ms "update" k) _ _ (L.update-done k o s x) (λ h. absurd (some-ne-none _ h));
    update-stays = λ k o s.
        guarded_rule
          (λ (p : Wrote P).
            p.0 ≡ none → IsHeld (meta k o) → (x : Object k) × (view p.1 k (key k o) ≡ some x))
          (may ms "update" k) _ _ (L.update-stays k o s) (λ h. absurd (some-ne-none _ h));
    update-failed = λ k o s e.
        guarded_rule (λ (p : Wrote P). p.0 ≡ some e → view p.1 ≡ view s) (may ms "update" k) _ _
          (L.update-failed k o s e) (λ h. refl);
    update_status-other = λ o s j i other.
        guarded_rule (λ (p : Wrote P). view p.1 j i ≡ view s j i)
          (may_update_status ms nfs_provisioner) _ _ (L.update_status-other o s j i other) refl;
    update_status_self = λ o s x here.
        guarded_rule
          (λ (p : Wrote P).
            (y : NfsProvisioner) × (view p.1 nfs_provisioner (key nfs_provisioner o) ≡ some y)
            × (y.spec ≡ x.spec)
            × Stored nfs_provisioner x y
            × (p.0 ≡ none → y.status ≡ o.status))
          (may_update_status ms nfs_provisioner) _ _ (L.update_status_self o s x here)
          (x, here, refl, (refl, refl, refl, refl, refl), λ h. absurd (some-ne-none _ h));
    delete-other = λ k o s j i other.
        guarded_rule (λ (p : Wrote P). view p.1 j i ≡ view s j i) (may ms "delete" k) _ _
          (L.delete-other k o s j i other) refl;
    delete-done = λ k o s.
        guarded_rule
          (λ (p : Wrote P).
            p.0 ≡ none
            → view s k (key k o) ≡ some o
            → (meta k o).finalizers ≡ []
            → view p.1 k (key k o) ≡ none)
          (may ms "delete" k) _ _ (L.delete-done k o s) (λ h. absurd (some-ne-none _ h));
    delete-failed = λ k o s e.
        guarded_rule (λ (p : Wrote P). p.0 ≡ some e → view p.1 ≡ view s) (may ms "delete" k) _ _
          (L.delete-failed k o s e) (λ h. refl);
    key-view = L.key-view;
    held-view = L.held-view;
  }

pub guard-HasHelpers :
    (ms : List Marker) (P : Platform) (forbidden : P.Error)
    → HasHelpers P
    → HasHelpers (guard ms P forbidden)
guard-HasHelpers ms P forbidden H = record {
  ignore_not_found_lem = H.ignore_not_found_lem;
  references_only = H.references_only;
  cross_namespace = H.cross_namespace;
  same_namespace = H.same_namespace;
  add_finalizer_only = H.add_finalizer_only;
  add_finalizer_elem = H.add_finalizer_elem;
  remove_finalizer_only = H.remove_finalizer_only;
  remove_finalizer_elem = H.remove_finalizer_elem;
  remove_finalizer_keeps = H.remove_finalizer_keeps;
  is_zero-none = H.is_zero-none;
}
