-- ===== src/Cluster/Memory/Laws.antt =====
-- The cluster in memory meets the laws.
use mathlib.Core.Option.{none-ne-some, some-ne-none}
use nfs_provisioner_operator.Base.{
  true, false, none, some, Option, [], ◌∷◌, ◌≡◌, refl, sym, ◌∙◌, ap, subst, arith,
}
use nfs_provisioner_operator.Kube.Meta.{StringMap, NamespacedName, same_name_iff}
use nfs_provisioner_operator.Api.{NfsProvisioner}
use nfs_provisioner_operator.Cluster.{
  Kind, Object, meta, nfs_provisioner, security_context_constraints, custom_resource_definition,
  persistent_volume_claim, service_account, cluster_role, cluster_role_binding, role, role_binding,
  deployment, service, storage_class,
}
use nfs_provisioner_operator.Cluster.Laws.{IsLawful, Stored, StoredMap, IsHeld, IsOther, key}
use nfs_provisioner_operator.Cluster.Memory.Views.{
  get-found, get-missing, live-some, some_injective, is_live-IsHeld, IsHeld-is_live, commit_rule,
  view-written_other, view-written_self, view-written_keeps,
}
use nfs_provisioner_operator.Cluster.Memory.{
  Memory, MemoryError, Change, content, has_finalizers, live, is_live, memory, memory_view, tick,
  commit, creation, replacement, status_change, removal,
}

StoredMap-refl : (m : StringMap) → StoredMap m m
StoredMap-refl none = tt
StoredMap-refl (some []) = tt
StoredMap-refl (some (e ∷ m)) = refl

Stored-refl : (k : Kind) (o : Object k) → Stored k o o
Stored-refl nfs_provisioner o = (refl, refl, refl, refl, refl)
Stored-refl security_context_constraints o = (refl, refl)
Stored-refl custom_resource_definition o = tt
Stored-refl persistent_volume_claim o = (refl, refl, refl)
Stored-refl service_account o = refl
Stored-refl cluster_role o = refl
Stored-refl cluster_role_binding o = (refl, refl)
Stored-refl role o = (refl, refl)
Stored-refl role_binding o = (refl, refl, refl)
Stored-refl deployment o =
    (refl, StoredMap-refl o.match_labels, StoredMap-refl o.template_labels, refl, refl, refl)
Stored-refl service o = (refl, StoredMap-refl o.selector)
Stored-refl storage_class o = refl

live_self :
    (k : Kind) (o : Object k) → is_live (meta k o) ≡ true → live k (key k o) (some o) ≡ some o
live_self k o h = rw ((same_name_iff (key k o) (key k o)).1 refl, h)

module _ (k : Kind) (n : NamespacedName) (s : Memory) (decide : Option (Object k) → Change k) where
  pub commit-other :
      (j : Kind) (i : NamespacedName)
      → IsOther k n j i
      → memory_view (commit k n decide s).1 j i ≡ memory_view s j i
  commit-other j i differs =
      commit_rule k n s decide (λ p. memory_view p.1 j i ≡ memory_view s j i) refl
        (λ o _. view-written_other k n o (tick s) j i differs) (λ e. refl)

  pub commit-failed :
      (e : MemoryError)
      → (commit k n decide s).0 ≡ some e
      → memory_view (commit k n decide s).1 ≡ memory_view s
  commit-failed e =
      commit_rule k n s decide (λ p. p.0 ≡ some e → memory_view p.1 ≡ memory_view s) (λ _. refl)
        (λ o _ h. absurd (none-ne-some e h)) (λ _ _. refl)

  -- What a commit leaves where it succeeds.
  commit-done :
      (commit k n decide s).0 ≡ none
      → (o : Option (Object k)) × (decide (memory_view s k n) ≡ content o)
        × (memory_view (commit k n decide s).1 k n ≡ live k n o)
  commit-done =
      commit_rule k n s decide
        (λ p.
          p.0 ≡ none
          → (o : Option (Object k)) × (decide (memory_view s k n) ≡ content o)
            × (memory_view p.1 k n ≡ live k n o))
        (λ h. absurd (some-ne-none _ h)) (λ o e _. (o, e, view-written_self k n o (tick s)))
        (λ e h. absurd (some-ne-none _ h))

creation-content :
    (k : Kind) (o : Object k) (old c : Option (Object k))
    → creation k o old ≡ content c
    → (old ≡ none) × (c ≡ some o) × (is_live (meta k o) ≡ true)
creation-content k o none c h = ground arith
creation-content k o (some x) c h = cc

replacement-content :
    (k : Kind) (o : Object k) (old c : Option (Object k))
    → replacement k o old ≡ content c
    → c ≡ some o
replacement-content k o none c h = cc
replacement-content k o (some x) c h = cc

content_injective :
    (k : Kind) (c d : Option (Object k)) → ◌≡◌ {A = Change k} (content c) (content d) → c ≡ d
content_injective k c d p = cc

removal-content :
    (k : Kind) (o : Object k) (old c : Option (Object k))
    → old ≡ some o
    → (meta k o).finalizers ≡ []
    → removal k old ≡ content c
    → c ≡ none
removal-content k o none c here free h = cc
removal-content k o (some x) c here free h =
    let none_left : (meta k x).finalizers ≡ [] =
      ap (λ (y : Object k). (meta k y).finalizers) (some_injective k x o here) ∙ free in
    let free_x : has_finalizers (meta k x) ≡ false = rw (none_left, has_finalizers) in
    sym (content_injective k none c (rw free_x at h))

status_change-content :
    (o x : NfsProvisioner) (old c : Option NfsProvisioner)
    → old ≡ some x
    → status_change nfs_provisioner o old ≡ content c
    → c ≡ some (record x { status = o.status })
status_change-content o x none c e h = cc
status_change-content o x (some y) c e h = cc

pub create-keeps :
    (k : Kind) (o : Object k) (s : Memory) (j : Kind) (i : NamespacedName) (x : Object j)
    → memory_view s j i ≡ some x
    → memory_view (memory.create k o s).1 j i ≡ some x
create-keeps k o s j i x e =
    commit_rule k (key k o) s (creation k o) (λ p. memory_view p.1 j i ≡ some x) e
      (λ c h.
        view-written_keeps k (key k o) c (tick s)
          ((creation-content k o (memory_view s k (key k o)) c h).0) j i x e)
      (λ _. e)

pub create-done :
    (k : Kind) (o : Object k) (s : Memory)
    → (memory.create k o s).0 ≡ none
    → (x : Object k) × (memory_view (memory.create k o s).1 k (key k o) ≡ some x) × Stored k o x
create-done k o s h =
    let (c, decided, there) = commit-done k (key k o) s (creation k o) h in
    let (_, is_o, lives) = creation-content k o (memory_view s k (key k o)) c decided in
    (o, there ∙ ap (live k (key k o)) is_o ∙ live_self k o lives, Stored-refl k o)

pub update-done :
    (k : Kind) (o : Object k) (s : Memory) (x : Object k)
    → (memory.update k o s).0 ≡ none
    → memory_view (memory.update k o s).1 k (key k o) ≡ some x
    → Stored k o x
update-done k o s x h e =
    let (c, decided, there) = commit-done k (key k o) s (replacement k o) h in
    let is_o = replacement-content k o (memory_view s k (key k o)) c decided in
    subst (Stored k o)
      (some_injective k o x (sym is_o ∙ (live-some k (key k o) c x (sym there ∙ e)).0))
      (Stored-refl k o)

pub update-stays :
    (k : Kind) (o : Object k) (s : Memory)
    → (memory.update k o s).0 ≡ none
    → IsHeld (meta k o)
    → (x : Object k) × (memory_view (memory.update k o s).1 k (key k o) ≡ some x)
update-stays k o s h held =
    let (c, decided, there) = commit-done k (key k o) s (replacement k o) h in
    let is_o = replacement-content k o (memory_view s k (key k o)) c decided in
    (o, there ∙ ap (live k (key k o)) is_o ∙ live_self k o (IsHeld-is_live (meta k o) held))

pub update_status_self :
    (o : NfsProvisioner) (s : Memory) (x : NfsProvisioner)
    → memory_view s nfs_provisioner (key nfs_provisioner o) ≡ some x
    → (y : NfsProvisioner) × (memory_view
          (memory.update_status nfs_provisioner o s).1
          nfs_provisioner
          (key nfs_provisioner o)
        ≡ some y)
      × (y.spec ≡ x.spec)
      × Stored nfs_provisioner x y
      × ((memory.update_status nfs_provisioner o s).0 ≡ none → y.status ≡ o.status)
update_status_self o s x here =
    commit_rule nfs_provisioner n s (status_change nfs_provisioner o)
      (λ p.
        (y : NfsProvisioner) × (memory_view p.1 nfs_provisioner n ≡ some y)
        × (y.spec ≡ x.spec)
        × Stored nfs_provisioner x y
        × (p.0 ≡ none → y.status ≡ o.status))
      (x, here, refl, Stored-refl nfs_provisioner x, λ h. absurd (some-ne-none _ h))
      (λ c decided. (
        changed,
        view-written_self nfs_provisioner n c (tick s)
            ∙ ap (live nfs_provisioner n) (is_changed c decided)
            ∙ rw ((same_name_iff (key nfs_provisioner x) n).1 stands.1, stands.2),
        refl,
        (refl, refl, refl, refl, refl),
        λ h. refl,
      ))
      (λ e. (x, here, refl, Stored-refl nfs_provisioner x, λ h. absurd (some-ne-none _ h)))
  where
    n : NamespacedName
    n = key nfs_provisioner o

    changed : NfsProvisioner
    changed = record x { status = o.status }

    is_changed :
        (c : Option NfsProvisioner)
        → status_change nfs_provisioner o (memory_view s nfs_provisioner n) ≡ content c
        → c ≡ some changed
    is_changed c decided = status_change-content o x _ c here decided

    stands :
        (s.tables nfs_provisioner n ≡ some x)
        × (key nfs_provisioner x ≡ n)
        × (is_live x.metadata ≡ true)
    stands = live-some nfs_provisioner n (s.tables nfs_provisioner n) x here

pub delete-done :
    (k : Kind) (o : Object k) (s : Memory)
    → (memory.delete k o s).0 ≡ none
    → memory_view s k (key k o) ≡ some o
    → (meta k o).finalizers ≡ []
    → memory_view (memory.delete k o s).1 k (key k o) ≡ none
delete-done k o s h here free =
    let (c, decided, there) = commit-done k (key k o) s (removal k) h in
    there
    ∙ ap (live k (key k o)) (removal-content k o (memory_view s k (key k o)) c here free decided)

unfoldable pub memory-IsLawful : IsLawful memory
memory-IsLawful = record {
  view = memory_view;
  view-get = λ k n s. refl;
  get-found = get-found;
  get-missing = get-missing;
  create-other = λ k o s. commit-other k (key k o) s (creation k o);
  create-keeps = create-keeps;
  create-done = create-done;
  create-failed = λ k o s. commit-failed k (key k o) s (creation k o);
  update-other = λ k o s. commit-other k (key k o) s (replacement k o);
  update-done = update-done;
  update-stays = update-stays;
  update-failed = λ k o s. commit-failed k (key k o) s (replacement k o);
  update_status-other = λ o s.
      commit-other nfs_provisioner (key nfs_provisioner o) s (status_change nfs_provisioner o);
  update_status_self = update_status_self;
  delete-other = λ k o s. commit-other k (key k o) s (removal k);
  delete-done = delete-done;
  delete-failed = λ k o s. commit-failed k (key k o) s (removal k);
  key-view = λ k n s o e. (live-some k n (s.tables k n) o e).1;
  held-view = λ k n s o e. is_live-IsHeld (meta k o) (live-some k n (s.tables k n) o e).2;
}
