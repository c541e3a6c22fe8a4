-- ===== src/DeepCopy/Fresh/Pointers.antt =====
-- `copy_pointer` makes a deep copy of the pointer, if the value behind it is copied so.
use nfs_provisioner_operator.Base.{ℕ, suc, ◌≡◌, none, some}
use nfs_provisioner_operator.DeepCopy.Types.{CellType}
use nfs_provisioner_operator.DeepCopy.Heap.{Heap, Cmd, pure, value_at, load, new}
use nfs_provisioner_operator.DeepCopy.Go.{copy_pointer}
use nfs_provisioner_operator.DeepCopy.Views.{View, Pointer, nil, to, Plain}
use nfs_provisioner_operator.DeepCopy.Fresh.{IsStable, IsCopy, pure_rule}
use nfs_provisioner_operator.DeepCopy.Fresh.Stable.{value_at-kept}
use nfs_provisioner_operator.DeepCopy.Fresh.Open.{
  opened, new-Open, step-Open, store-Open, store-Extends, store_lem, close,
}

pub load_lem :
    {V : Type 0} (type : CellType V) (h : Heap) (a : ℕ) (v : V)
    → value_at type h a ≡ some v
    → load type a h ≡ some (v, h)
unfolding load
load_lem type h a v at = rw (load, at)

-- A plain value is its own copy.
pub pure-IsCopy : {V : Type 0} → IsCopy (Plain {V = V}) pure
pure-IsCopy n h x v ready is = pure_rule x ready is

pub copy_pointer-IsCopy :
    {V W : Type 0} (type : CellType V) (P : View V W) (zero_value : V) (deep_copy_into : V → Cmd V)
    → IsStable P
    → IsCopy P deep_copy_into
    → IsCopy (Pointer type P) (copy_pointer type zero_value deep_copy_into)
unfolding copy_pointer new
copy_pointer-IsCopy type P zero_value into stable copies n h x v ready nil =
    pure_rule none ready nil
copy_pointer-IsCopy type P zero_value into stable copies n h x v ready (to {a} {v = y} {w} at is) =
    let first = new-Open type n h zero_value ready in
    let here = value_at-kept type h (opened type zero_value h) first.kept a y at in
    let step =
      copies (suc h.top) (opened type zero_value h) y w first.ready
        (stable h (opened type zero_value h) first.kept y w is) in
    let later = step-Open first step in
    let filled = store-Open later (type.wrap step.result) in
    rw
      (
        load_lem type (opened type zero_value h) a y here,
        step.runs,
        store_lem type later step.result,
      )
      (close type filled P w stable
        (stable _ _ (store-Extends later (type.wrap step.result)) step.result w step.post))
