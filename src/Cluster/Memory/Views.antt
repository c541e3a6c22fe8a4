-- ===== src/Cluster/Memory/Views.antt =====
-- How reads and writes of the cluster in memory act on its objects.
use mathlib.Core.Option.{none-ne-some}
use nfs_provisioner_operator.Base.{
  Bool, true, none, some, Option, ◌≡◌, refl, sym, ◌∙◌, ap, subst, inl, inr, Bool-cases, arith, ◌&&◌,
}
use nfs_provisioner_operator.Base.Exec.{found, failed}
use nfs_provisioner_operator.Kube.Meta.{ObjectMeta, NamespacedName, same_name, same_name_iff}
use nfs_provisioner_operator.Cluster.{Kind, Object, meta}
use nfs_provisioner_operator.Cluster.Laws.{IsHeld, IsOther, key}
use nfs_provisioner_operator.Cluster.Memory.Tables.{write_self, write-other}
use nfs_provisioner_operator.Cluster.Memory.{
  Memory, MemoryError, Change, content, unavailable, next_fails, refusal, live, is_live, memory,
  memory_get, memory_view, tick, written, commit, change,
}

-- Reads.
pub get-found :
    (k : Kind) (n : NamespacedName) (s : Memory) (o : Object k)
    → (memory_get k n s).0 ≡ found o
    → memory_view s k n ≡ some o
get-found k n s o h = ground arith

pub get-missing :
    (k : Kind) (n : NamespacedName) (s : Memory) (e : MemoryError)
    → (memory_get k n s).0 ≡ failed e
    → memory.is_not_found e ≡ true
    → memory_view s k n ≡ none
get-missing k n s e h p = ground arith

both_true : (a b : Bool) → (a && b) ≡ true → (a ≡ true) × (b ≡ true)
both_true a b h = ground arith

pub some_injective :
    (k : Kind) (x y : Object k) → ◌≡◌ {A = Option (Object k)} (some x) (some y) → x ≡ y
some_injective k x y p = cc

-- What a live object is.
pub live-some :
    (k : Kind) (n : NamespacedName) (o : Option (Object k)) (x : Object k)
    → live k n o ≡ some x
    → (o ≡ some x) × (key k x ≡ n) × (is_live (meta k x) ≡ true)
live-some k n none x h = cc
live-some k n (some o) x h = elim (Bool-cases (same_name (key k o) n && is_live (meta k o))) [
  | inl p ↦
      let same : o ≡ x = some_injective k o x (rw p at h) in
      let (named_n, lives) = both_true (same_name (key k o) n) (is_live (meta k o)) p in
      (
        ap some same,
        subst (λ y. key k y ≡ n) same ((same_name_iff (key k o) n).0 named_n),
        subst (λ y. is_live (meta k y) ≡ true) same lives,
      )
  | inr p ↦ absurd (none-ne-some x (rw p at h))
]

pub is_live-IsHeld : (m : ObjectMeta) → is_live m ≡ true → IsHeld m
is_live-IsHeld m h = ground arith

pub IsHeld-is_live : (m : ObjectMeta) → IsHeld m → is_live m ≡ true
IsHeld-is_live m h = ground arith

module _ (k : Kind) (n : NamespacedName) (o : Option (Object k)) (s : Memory) where
  pub view-written_other :
      (j : Kind) (i : NamespacedName)
      → IsOther k n j i
      → memory_view (written k n o s) j i ≡ memory_view s j i
  view-written_other j i differs = ap (live j i) (write-other k n o s.tables j i differs)

  pub view-written_self : memory_view (written k n o s) k n ≡ live k n o
  view-written_self = ap (live k n) (write_self k n o s.tables)

  pub view-written_keeps :
      memory_view s k n ≡ none
      → (j : Kind) (i : NamespacedName) (x : Object j) → memory_view s j i ≡ some x
      → memory_view (written k n o s) j i ≡ some x
  view-written_keeps absent j i x e = view-written_other j i differs ∙ e
    where
      differs : IsOther k n j i
      differs (p, q) = cc (
        e,
        subst (λ l. memory_view s l i ≡ none) (sym p)
            (subst (λ w. memory_view s k w ≡ none) (sym q) absent),
      )

module _ (k : Kind) (n : NamespacedName) (s : Memory) (decide : Option (Object k) → Change k)
    (R : Option MemoryError × Memory → Type 0) where
  change_rule :
      (c : Change k) (t : Memory)
      → ((o : Option (Object k)) → c ≡ content o → R (none, written k n o t))
      → ((e : MemoryError) → c ≡ refusal e → R (some e, t))
      → R (change k n c t)
  change_rule (content o) t done refused = done o refl
  change_rule (refusal e) t done refused = refused e refl

  pub commit_rule :
      R (some unavailable, tick s)
      → ((o : Option (Object k))
          → decide (memory_view s k n) ≡ content o
          → R (none, written k n o (tick s)))
      → ((e : MemoryError) → R (some e, tick s))
      → R (commit k n decide s)
  commit_rule down done refused = elim (Bool-cases (next_fails s.outages)) [
    | inl p ↦ rw p down
    | inr p ↦ rw p (change_rule (decide (memory_view s k n)) (tick s) done (λ e _. refused e))
  ]
