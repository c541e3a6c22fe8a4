-- ===== src/DeepCopy/Provisioner/Copies.antt =====
-- The deep copies of a resource and of a list of resources are deep copies, if the library's of
-- their metadata are.
use mathlib.Core.List.{append-nil, append_assoc}
use nfs_provisioner_operator.Base.{
  ℕ, suc, ◌≡◌, refl, sym, ◌∙◌, subst, ap, some, List, [], ◌∷◌, ◌++◌,
}
use nfs_provisioner_operator.Base.Lists.{length}
use nfs_provisioner_operator.Api
use nfs_provisioner_operator.DeepCopy.Types.{TypeMeta, ObjectMeta, ListMeta, NfsProvisioner}
use nfs_provisioner_operator.DeepCopy.CellTypes
use nfs_provisioner_operator.DeepCopy.Heap.{Heap, Cmd, new, write, load, store}
use nfs_provisioner_operator.DeepCopy.Go.{make, set_at}
use nfs_provisioner_operator.DeepCopy.Views
use nfs_provisioner_operator.DeepCopy.Views.{Pointer, nil, to}
use nfs_provisioner_operator.DeepCopy.Spec
use nfs_provisioner_operator.DeepCopy.Status
use nfs_provisioner_operator.DeepCopy.Provisioner.{
  zero_provisioner, zero_list, deep_copy_into, deep_copy, copy_each, copy_items,
  deep_copy_list_into, deep_copy_list,
}
use nfs_provisioner_operator.DeepCopy.Fresh.{
  IsStable, IsCopy, from, pure_rule, copy_rule, Extends-from,
}
use nfs_provisioner_operator.DeepCopy.Fresh.Stable.{
  Pointer-IsStable, Spec-IsStable, Status-IsStable, Metadata-IsStable, Resource-IsStable,
  Resources-IsStable, ListMetadata-IsStable, Listing-IsStable,
}
use nfs_provisioner_operator.DeepCopy.Fresh.Open.{
  Open, opened, new-Open, step-Open, store-Open, store-Extends, load-Open, store_lem, close,
}
use nfs_provisioner_operator.DeepCopy.Fresh.Pointers.{load_lem, copy_pointer-IsCopy}

length-append_one : {A : Type 0} (xs : List A) (x : A) → length (xs ++ x ∷ []) ≡ suc (length xs)
length-append_one [] x = refl
length-append_one (y ∷ xs) x = ap suc (length-append_one xs x)

-- An assignment to the first element after `xs`.
set_at-append :
    {A : Type 0} (xs : List A) (x y : A) (ys : List A)
    → set_at (length xs) y (xs ++ x ∷ ys) ≡ some (xs ++ y ∷ ys)
set_at-append [] x y ys = refl
set_at-append (z ∷ xs) x y ys = rw (set_at-append xs x y ys) refl

Resources-append :
    (h : Heap) (xs : List NfsProvisioner) (vs : List (TypeMeta × Api.NfsProvisioner))
    (y : NfsProvisioner) (w : TypeMeta × Api.NfsProvisioner)
    → Views.Resources h xs vs
    → Views.Resource h y w
    → Views.Resources h (xs ++ y ∷ []) (vs ++ w ∷ [])
Resources-append h [] [] y w is last = (last, tt)
Resources-append h [] (v ∷ vs) y w is last = absurd is
Resources-append h (x ∷ xs) [] y w is last = absurd is
Resources-append h (x ∷ xs) (v ∷ vs) y w (first, later) last =
    (first, Resources-append h xs vs y w later last)

module _ (copy_meta : ObjectMeta → Cmd ObjectMeta)
    (meta-IsCopy : IsCopy Views.Metadata copy_meta) where
  pub deep_copy_into-IsCopy : IsCopy Views.Resource (deep_copy_into copy_meta)
  unfolding deep_copy_into
  deep_copy_into-IsCopy n h x v ready is =
      copy_rule _ _ _ _ (v.1).metadata Metadata-IsStable meta-IsCopy ready is.metadata
        λ m g ready_g e at_m.
          copy_rule _ _ _ _ (v.1).spec Spec-IsStable Spec.Laws.deep_copy_into-IsCopy ready_g
            (Spec-IsStable h g e x.spec (v.1).spec is.spec)
            λ s g' ready' e' at_s.
              copy_rule _ _ _ _ (v.1).status Status-IsStable Status.Laws.deep_copy_into-IsCopy
                ready'
                (Status-IsStable h g' (λ a c at. e' a c (e a c at)) x.status (v.1).status is.status)
                λ t k ready_k e'' at_t. pure_rule _ ready_k (record {
                  type_meta = is.type_meta;
                  metadata = at_m k (λ a c at. e'' a c (e' a c at));
                  spec = at_s k e'';
                  status = at_t k (λ a c at. at);
                })

  pub deep_copy-IsCopy : IsCopy (Pointer CellTypes.resources Views.Resource) (deep_copy copy_meta)
  unfolding deep_copy
  deep_copy-IsCopy =
      copy_pointer-IsCopy CellTypes.resources Views.Resource zero_provisioner
        (deep_copy_into copy_meta) Resource-IsStable deep_copy_into-IsCopy

  copy_each-next :
      (b i : ℕ) (x : NfsProvisioner) (xs : List NfsProvisioner) (g : Heap) (y : NfsProvisioner)
      (g1 : Heap) (ys zs : List NfsProvisioner) (g2 : Heap)
      → deep_copy_into copy_meta x g ≡ some (y, g1)
      → load CellTypes.resource_slices b g1 ≡ some (ys, g1)
      → set_at i y ys ≡ some zs
      → store CellTypes.resource_slices b zs g1 ≡ some (tt, g2)
      → copy_each copy_meta b i (x ∷ xs) g ≡ copy_each copy_meta b (suc i) xs g2
  unfolding copy_each
  copy_each-next b i x xs g y g1 ys zs g2 into loaded set stored =
      rw (into, loaded, set, stored) refl

  -- The loop fills the new slice, element by element.
  copy_each-Open :
      (n : ℕ) (h : Heap) (b : ℕ) (done : List NfsProvisioner)
      (ws : List (TypeMeta × Api.NfsProvisioner)) (xs : List NfsProvisioner)
      (vs : List (TypeMeta × Api.NfsProvisioner)) (g : Heap)
      → Open n h b (CellTypes.resource_slices.wrap (done ++ make zero_provisioner xs)) g
      → Views.Resources (from (suc b) g) done ws
      → Views.Resources h xs vs
      → (g' : Heap) × (ys : List NfsProvisioner) × (copy_each copy_meta b (length done) xs g
          ≡ some (tt, g'))
        × Open n h b (CellTypes.resource_slices.wrap ys) g'
        × Views.Resources (from (suc b) g') ys (ws ++ vs)
  unfolding copy_each
  copy_each-Open n h b done ws [] [] g o at is = (
    g,
    done ++ [],
    refl,
    o,
    subst (λ l. Views.Resources (from (suc b) g) l (ws ++ [])) (sym (append-nil done))
        (subst (Views.Resources (from (suc b) g) done) (sym (append-nil ws)) at),
  )
  copy_each-Open n h b done ws [] (v ∷ vs) g o at is = absurd is
  copy_each-Open n h b done ws (x ∷ xs) [] g o at is = absurd is
  copy_each-Open n h b done ws (x ∷ xs) (v ∷ vs) g o at (first, later) =
      let type = CellTypes.resource_slices in
      let step =
        deep_copy_into-IsCopy (suc b) g x v o.ready (Resource-IsStable h g o.kept x v first) in
      let y = step.result in
      let o' = step-Open o step in
      let filled = done ++ y ∷ make zero_provisioner xs in
      let g' = write b (type.wrap filled) step.heap in
      let kept = store-Extends o' (type.wrap filled) in
      let at_step =
        Resources-IsStable (from (suc b) g) (from (suc b) step.heap)
          (Extends-from (suc b) g step.heap step.kept) done ws at in
      let at_filled =
        Resources-IsStable (from (suc b) step.heap) (from (suc b) g') kept done ws at_step in
      let added =
        Resources-append (from (suc b) g') done ws y v at_filled
          (Resource-IsStable (from (suc b) step.heap) (from (suc b) g') kept y v step.post) in
      let o'' =
        subst (λ l. Open n h b (type.wrap l) g')
          (sym (append_assoc done (y ∷ []) (make zero_provisioner xs)))
          (store-Open o' (type.wrap filled)) in
      let (k, ys, runs, last, all) =
        copy_each-Open n h b (done ++ y ∷ []) (ws ++ v ∷ []) xs vs g' o'' added later in
      (
        k,
        ys,
        copy_each-next b (length done) x xs g y step.heap (done ++ make zero_provisioner (x ∷ xs))
              filled g' step.runs (load-Open type o')
              (set_at-append done zero_provisioner y (make zero_provisioner xs))
              (store_lem type o' filled)
            ∙ subst (λ i. copy_each copy_meta b i xs g' ≡ some (tt, k)) (length-append_one done y)
                runs,
        last,
        subst (Views.Resources (from (suc b) k) ys) (append_assoc ws (v ∷ []) vs) all,
      )

  copy_items-IsCopy :
      IsCopy (Pointer CellTypes.resource_slices Views.Resources) (copy_items copy_meta)
  unfolding copy_items new
  copy_items-IsCopy n h x v ready nil = pure_rule _ ready nil
  copy_items-IsCopy n h x v ready (to {a} {v = xs} {w = vs} at is) =
      let type = CellTypes.resource_slices in
      let made = new-Open type n h (make zero_provisioner xs) ready in
      let (g, ys, runs, last, all) =
        copy_each-Open n h h.top [] [] xs vs (opened type (make zero_provisioner xs) h) made tt
          is in
      rw (load_lem type h a xs at, runs) (close type last Views.Resources vs Resources-IsStable all)

  module _ (copy_list_meta : ListMeta → Cmd ListMeta)
      (list_meta-IsCopy : IsCopy Views.ListMetadata copy_list_meta) where
    pub deep_copy_list_into-IsCopy :
        IsCopy Views.Listing (deep_copy_list_into copy_meta copy_list_meta)
    unfolding deep_copy_list_into
    deep_copy_list_into-IsCopy n h x v ready is =
        copy_rule _ _ _ _ v ListMetadata-IsStable list_meta-IsCopy ready is.metadata
          λ m g ready_g e at_m.
            copy_rule _ _ _ _ v.items items-IsStable copy_items-IsCopy ready_g
              (items-IsStable h g e x.items v.items is.items)
              λ p g' ready' e' at_p. pure_rule _ ready' (record {
                type_meta = is.type_meta;
                metadata = at_m g' e';
                items = at_p g' (λ a c at. at);
              })
      where
        items-IsStable : IsStable (Pointer CellTypes.resource_slices Views.Resources)
        items-IsStable =
            Pointer-IsStable CellTypes.resource_slices Views.Resources Resources-IsStable

    pub deep_copy_list-IsCopy :
        IsCopy
          (Pointer CellTypes.resource_lists Views.Listing)
          (deep_copy_list copy_meta copy_list_meta)
    unfolding deep_copy_list
    deep_copy_list-IsCopy =
        copy_pointer-IsCopy CellTypes.resource_lists Views.Listing zero_list
          (deep_copy_list_into copy_meta copy_list_meta) Listing-IsStable deep_copy_list_into-IsCopy
