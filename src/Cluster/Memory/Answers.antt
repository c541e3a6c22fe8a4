-- ===== src/Cluster/Memory/Answers.antt =====
-- The cluster in memory answers as long as no outage is ahead.
use nfs_provisioner_operator.Base.{
  true, none, some, [], Option, ◌≡◌, refl, arith, inl, inr, Bool-cases,
}
use nfs_provisioner_operator.Base.Exec.{failed}
use nfs_provisioner_operator.Kube.Meta.{NamespacedName}
use nfs_provisioner_operator.Cluster.{Kind, Object, meta}
use nfs_provisioner_operator.Cluster.Laws.{key}
use nfs_provisioner_operator.Cluster.Answers.{Answers}
use nfs_provisioner_operator.Cluster.Memory.{
  Memory, MemoryError, Change, content, refusal, has_finalizers, memory, memory_get, memory_view,
  commit, change, creation, replacement, removal, marked,
}
use nfs_provisioner_operator.Cluster.Memory.Views.{IsHeld-is_live}
use nfs_provisioner_operator.Cluster.Memory.Laws.{memory-IsLawful}

abbrev pub Calm : Memory → Type 0
Calm s = s.outages ≡ []

module _ (k : Kind) (n : NamespacedName) where
  change-Calm : (c : Change k) (s : Memory) → Calm s → Calm (change k n c s).1
  change-Calm (content o) s calm = calm
  change-Calm (refusal e) s calm = calm

  pub commit-Calm :
      (decide : Option (Object k) → Change k) (s : Memory) → Calm s → Calm (commit k n decide s).1
  commit-Calm decide s calm =
      rw calm (change-Calm (decide (memory_view s k n)) (record s { outages = [] }) refl)

  pub commit-answers :
      (decide : Option (Object k) → Change k) (s : Memory) (o : Option (Object k))
      → Calm s
      → decide (memory_view s k n) ≡ content o
      → (commit k n decide s).0 ≡ none
  commit-answers decide s o calm decided = rw (calm, decided)

  pub get-Calm : (s : Memory) → Calm s → Calm (memory_get k n s).1
  get-Calm s calm = rw calm

  pub get-answers :
      (s : Memory) (e : MemoryError)
      → Calm s
      → (memory_get k n s).0 ≡ failed e
      → memory.is_not_found e ≡ true
  get-answers s e calm h = ground arith

pub create-answers :
    (k : Kind) (o : Object k) (s : Memory)
    → Calm s
    → (meta k o).deletion_timestamp ≡ none
    → memory_view s k (key k o) ≡ none
    → (memory.create k o s).0 ≡ none
create-answers k o s calm fresh missing =
    commit-answers k (key k o) (creation k o) s (some o) calm
      (rw (missing, IsHeld-is_live (meta k o) (inl fresh)))

removed : (k : Kind) (x : Object k) → (c : Option (Object k)) × (removal k (some x) ≡ content c)
removed k x = elim (Bool-cases (has_finalizers (meta k x))) [
  | inl p ↦ (some (marked k x), rw p)
  | inr p ↦ (none, rw p)
]

pub delete-answers :
    (k : Kind) (o x : Object k) (s : Memory)
    → Calm s
    → memory_view s k (key k o) ≡ some x
    → (memory.delete k o s).0 ≡ none
delete-answers k o x s calm there =
    let (c, e) = removed k x in commit-answers k (key k o) (removal k) s c calm (rw there e)

unfoldable pub memory-Answers : Answers memory memory-IsLawful
unfolding memory-IsLawful
memory-Answers = record {
  IsUp = Calm;
  get-IsUp = λ k n s. get-Calm k n s;
  get-answers = λ k n s. get-answers k n s;
  create-IsUp = λ k o. commit-Calm k (key k o) (creation k o);
  create-answers = create-answers;
  update-IsUp = λ k o. commit-Calm k (key k o) (replacement k o);
  update-answers =
      λ k o x s calm there. commit-answers k (key k o) (replacement k o) s (some o) calm (rw there);
  delete-IsUp = λ k o. commit-Calm k (key k o) (removal k);
  delete-answers = delete-answers;
}
