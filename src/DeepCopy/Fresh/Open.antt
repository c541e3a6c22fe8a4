-- ===== src/DeepCopy/Fresh/Open.antt =====
-- A cell that a function has allocated and goes on to fill, while it allocates further.
use nfs_provisioner_operator.Base.{ℕ, suc, ◌≤◌, ◌≡◌, refl, Option, none, some, arith}
use nfs_provisioner_operator.DeepCopy.Types.{Cell, CellType}
use nfs_provisioner_operator.DeepCopy.Heap.{Heap, write, value_at, load, store}
use nfs_provisioner_operator.DeepCopy.Views.{View, Pointer, to}
use nfs_provisioner_operator.DeepCopy.Fresh.{Extends, IsStable, from, Ready, Fresh, Extends-of_from}

-- Since `h`, the cell at `b` was allocated and now holds `c`; the rest of `h` is as it was.
pub record Open (n : ℕ) (h : Heap) (b : ℕ) (c : Cell) (g : Heap) : Type 0 where
  pub low : n ≤ b
  pub spare : h.cell b ≡ none
  pub kept : Extends h g
  pub holds : g.cell b ≡ some c
  pub ready : Ready (suc b) g

module _ {V : Type 0} (type : CellType V) where
  -- The heap after `new`.
  abbrev pub opened : V → Heap → Heap
  opened v h = write h.top (type.wrap v) (record h { top = suc h.top })

  pub new-Open : (n : ℕ) (h : Heap) (v : V) → Ready n h → Open n h h.top (type.wrap v) (opened v h)
  new-Open n h v ready = record {
    low = ready.below;
    spare = ready.free h.top (omega arith);
    kept = λ a c at. ground (arith, ready.free a);
    holds = ground arith;
    ready = record { below = omega arith; free = λ a le. ground (arith, ready.free a) };
  }

module _ {n : ℕ} {h : Heap} {b : ℕ} {c : Cell} {g : Heap} (filling : Open n h b c g) where
  pub Ready-Open : Ready n g
  Ready-Open = record {
    below = omega (arith, filling.low, filling.ready.below);
    free = filling.ready.free;
  }

  -- A step that puts its result behind the cell leaves the cell as it is.
  pub step-Open :
      {A : Type 0} {P : Heap → A → Type 0} {r : Option (A × Heap)} (step : Fresh (suc b) g r P)
      → Open n h b c step.heap
  step-Open step = record {
    low = filling.low;
    spare = filling.spare;
    kept = λ a d at. step.kept a d (filling.kept a d at);
    holds = step.kept b c filling.holds;
    ready = step.ready;
  }

  pub store-Open : (d : Cell) → Open n h b d (write b d g)
  store-Open d = record {
    low = filling.low;
    spare = filling.spare;
    kept = λ a e at. ground (arith, filling.kept a e, filling.spare);
    holds = ground arith;
    ready = record {
      below = filling.ready.below;
      free = λ a le. ground (arith, filling.ready.free a, filling.ready.below);
    };
  }

  -- And it leaves what lies behind the cell.
  pub store-Extends : (d : Cell) → Extends (from (suc b) g) (from (suc b) (write b d g))
  store-Extends d a e at = ground arith

module _ {V : Type 0} (type : CellType V) {n : ℕ} {h : Heap} {b : ℕ} {v : V} {g : Heap}
    (filling : Open n h b (type.wrap v) g) where
  pub value_at-Open : value_at type g b ≡ some v
  value_at-Open = rw (value_at, filling.holds) (type.unwrap-wrap v)

  pub load-Open : load type b g ≡ some (v, g)
  unfolding load
  load-Open = rw (load, value_at-Open)

  pub store_lem : (w : V) → store type b w g ≡ some (tt, write b (type.wrap w) g)
  unfolding store
  store_lem w = rw (store, value_at-Open)

  -- The pointer to a cell that is filled.
  pub close :
      {W : Type 0} (P : View V W) (w : W)
      → IsStable P
      → P (from (suc b) g) v w
      → Fresh n h (some (some b, g)) (λ g' p. Pointer type P g' p (some w))
  close P w stable is = record {
    result = some b;
    heap = g;
    runs = refl;
    kept = filling.kept;
    ready = Ready-Open filling;
    post = to at (
        stable (from (suc b) g) (from n g)
          (Extends-of_from n (suc b) g (omega (arith, filling.low))) v w is);
  }
    where
      at : value_at type (from n g) b ≡ some v
      at = ground (arith, filling.low, value_at-Open)
