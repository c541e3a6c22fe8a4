-- ===== src/DeepCopy/Separation.antt =====
-- The copy and the original have no cell in common.
use nfs_provisioner_operator.Base.{ℕ, ◌≡◌, Option, some, arith, if◌then◌else◌}
use nfs_provisioner_operator.DeepCopy.Types.{Ptr, Cell, CellType}
use nfs_provisioner_operator.DeepCopy.Heap.{Heap, Cmd, ltb}
use nfs_provisioner_operator.DeepCopy.Views.{View, Pointer}
use nfs_provisioner_operator.DeepCopy.Fresh.{Extends, IsStable, IsCopy, from, Ready}
use nfs_provisioner_operator.DeepCopy.Fresh.Stable.{Pointer-IsStable}

-- A heap whose cells below an address, or from it on, are replaced by others.
abbrev pub replace_below : ℕ → (ℕ → Option Cell) → Heap → Heap
replace_below n others h = record h { cell = λ a. if ltb a n then others a else h.cell a }

abbrev pub replace_from : ℕ → (ℕ → Option Cell) → Heap → Heap
replace_from n others h = record h { cell = λ a. if ltb a n then h.cell a else others a }

-- The run ends with a pointer that stands for the same as `p`, and has left every cell as it was.
-- The copy stands whatever then becomes of the cells of before, and the original stands whatever
-- becomes of all others.
pub record Copied {V W : Type 0} (type : CellType V) (P : View V W) (h : Heap) (p : Ptr)
    (w : Option W) (others : ℕ → Option Cell) (run : Option (Ptr × Heap)) : Type 0 where
  pub copy : Ptr
  pub heap : Heap
  pub runs : run ≡ some (copy, heap)
  pub kept : Extends h heap
  pub copy_stands : Pointer type P heap copy w
  pub copy_apart : Pointer type P (replace_below h.top others heap) copy w
  pub original_apart : Pointer type P (replace_from h.top others heap) p w

module _ {V W : Type 0} (type : CellType V) (P : View V W) (stable : IsStable P) where
  Pointer-from :
      (n : ℕ) (h g : Heap) (p : Ptr) (w : Option W)
      → Extends (from n h) g
      → Pointer type P (from n h) p w
      → Pointer type P g p w
  Pointer-from n h g p w e is = Pointer-IsStable type P stable (from n h) g e p w is

  pub IsCopy-Copied :
      (deep_copy : Ptr → Cmd Ptr)
      → IsCopy (Pointer type P) deep_copy
      → (h : Heap) (p : Ptr) (w : Option W) (others : ℕ → Option Cell) → Ready 0 h
      → Pointer type P h p w
      → Copied type P h p w others (deep_copy p h)
  IsCopy-Copied deep_copy copies h p w others ready is =
      let run = copies h.top h p w (record { below = omega arith; free = ready.free }) is in
      record {
        copy = run.result;
        heap = run.heap;
        runs = run.runs;
        kept = run.kept;
        copy_stands =
            Pointer-from h.top run.heap run.heap run.result w (λ a c at. ground arith) run.post;
        copy_apart =
            Pointer-from h.top run.heap (replace_below h.top others run.heap) run.result w
              (λ a c at. ground arith) run.post;
        original_apart =
            Pointer-IsStable type P stable h (replace_from h.top others run.heap)
              (λ a c at. ground (arith, ready.free a, run.kept a c at)) p w is;
      }
