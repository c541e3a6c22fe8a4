-- ===== src/DeepCopy/Fresh.antt =====
-- Commands whose result is new: what it stands for lies at addresses that were free before, and
-- the cells of before are as they were.
pub mod Stable
pub mod Open
pub mod Pointers
use nfs_provisioner_operator.Base.{
  ℕ, suc, ◌<◌, ◌≤◌, ◌≡◌, refl, ◌∙◌, ap, Option, none, some, arith, if◌then◌else◌,
}
use nfs_provisioner_operator.DeepCopy.Types.{Ptr, Cell, CellType}
use nfs_provisioner_operator.DeepCopy.Heap.{
  Heap, Cmd, pure, resume, ◌>>=◌, ◌==◌, ltb, write, value_at, new, load, store,
}
use nfs_provisioner_operator.DeepCopy.Views.{View, Pointer}
use nfs_provisioner_operator.DeepCopy.Views

-- Each cell of `h` is in `g`.
abbrev pub Extends : Heap → Heap → Type 0
Extends h g = (a : ℕ) (c : Cell) → h.cell a ≡ some c → g.cell a ≡ some c

-- A relation that only depends on cells that are there.
abbrev pub IsStable : {V W : Type 0} → View V W → Type 0
IsStable {V} {W} P = (h g : Heap) → Extends h g → (x : V) (v : W) → P h x v → P g x v

-- The part of a heap at the addresses from `n` on.
abbrev pub from : ℕ → Heap → Heap
from n h = record h { cell = λ a. if ltb a n then none else h.cell a }

-- A heap with no cell from its next address on, the next address not before `n`.
pub record Ready (n : ℕ) (h : Heap) : Type 0 where
  pub below : n ≤ h.top
  pub free : (a : ℕ) → h.top ≤ a → h.cell a ≡ none

-- The command ends, in a heap that has the cells of before, and what it gives is related in the
-- part of the heap from `n` on.
pub record Fresh {A : Type 0} (n : ℕ) (h : Heap) (run : Option (A × Heap)) (P : Heap → A → Type 0)
    : Type 0 where
  pub result : A
  pub heap : Heap
  pub runs : run ≡ some (result, heap)
  pub kept : Extends h heap
  pub ready : Ready n heap
  pub post : P (from n heap) result

-- The command is a deep copy, for values that stand for something in the way of `P`.
abbrev pub IsCopy : {V W : Type 0} → View V W → (V → Cmd V) → Type 0
IsCopy {V} {W} P deep_copy =
    (n : ℕ) (h : Heap) (x : V) (v : W)
    → Ready n h
    → P h x v
    → Fresh n h (deep_copy x h) (λ g y. P g y v)

pub Extends-trans : (h g k : Heap) → Extends h g → Extends g k → Extends h k
Extends-trans h g k e e' a c at = e' a c (e a c at)

pub Extends-from : (n : ℕ) (h g : Heap) → Extends h g → Extends (from n h) (from n g)
Extends-from n h g e a c at = ground (arith, e a c)

pub Extends-of_from : (m n : ℕ) (h : Heap) → m ≤ n → Extends (from n h) (from m h)
Extends-of_from m n h le a c at = ground arith

module _ {A : Type 0} {P : Heap → A → Type 0} {n : ℕ} {h : Heap} where
  pub pure_rule : (x : A) → Ready n h → P (from n h) x → Fresh n h (pure x h) P
  pure_rule x ready post = record {
    result = x;
    heap = h;
    runs = refl;
    kept = λ a c at. at;
    ready = ready;
    post = post;
  }

  -- After a step, the rest: what the step gave is there in any heap that the rest ends in.
  pub bind_rule :
      {B : Type 0} {Q : Heap → B → Type 0} (m : Cmd A) (k : A → Cmd B)
      → ((g g' : Heap) → Extends g g' → (x : A) → P g x → P g' x)
      → Fresh n h (m h) P
      → ((x : A) (g : Heap)
          → Ready n g
          → Extends h g
          → ((g' : Heap) → Extends g g' → P (from n g') x)
          → Fresh n g (k x g) Q)
      → Fresh n h ((m >>= k) h) Q
  bind_rule m k stable step rest =
      let tail = rest step.result step.heap step.ready step.kept λ g' e.
        stable (from n step.heap) (from n g') (Extends-from n step.heap g' e) step.result
          step.post in
      record {
        result = tail.result;
        heap = tail.heap;
        runs = ap (λ r. resume k r) step.runs ∙ tail.runs;
        kept = λ a c at. tail.kept a c (step.kept a c at);
        ready = tail.ready;
        post = tail.post;
      }

-- A copy, and what the code goes on to do with it.
pub copy_rule :
    {V W B : Type 0} (P : View V W) {n : ℕ} {h : Heap} {Q : Heap → B → Type 0}
    (deep_copy : V → Cmd V) (k : V → Cmd B) (x : V) (v : W)
    → IsStable P
    → IsCopy P deep_copy
    → Ready n h
    → P h x v
    → ((y : V) (g : Heap)
        → Ready n g
        → Extends h g
        → ((g' : Heap) → Extends g g' → P (from n g') y v)
        → Fresh n g (k y g) Q)
    → Fresh n h ((deep_copy x >>= k) h) Q
copy_rule P {n} {h} deep_copy k x v stable copies ready is rest =
    bind_rule (deep_copy x) k (λ g g' e y. stable g g' e y v) (copies n h x v ready is) rest
