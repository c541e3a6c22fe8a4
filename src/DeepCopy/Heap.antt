-- ===== src/DeepCopy/Heap.antt =====
-- Go's heap and the commands on it.
use Prim.Native.Nat.{compare, Ordering}
use nfs_provisioner_operator.Base.{ℕ, suc, Bool, true, false, Option, none, some, if◌then◌else◌}
use nfs_provisioner_operator.DeepCopy.Types.{Cell, CellType}

infix 50 ◌==◌
abbrev pub ◌==◌ : ℕ → ℕ → Bool
a == b = elim (compare a b) [ Ordering.eq ↦ true | _ ↦ false ]

abbrev pub ltb : ℕ → ℕ → Bool
ltb a b = elim (compare a b) [ Ordering.lt ↦ true | _ ↦ false ]

-- `top` is the address that the next allocation gets.
pub record Heap : Type 0 where
  pub cell : ℕ → Option Cell
  pub top : ℕ

-- A function on the heap, with no value where a dereference panics.
abbrev pub Cmd : Type 0 → Type 0
Cmd V = Heap → Option (V × Heap)

abbrev pub pure : {V : Type 0} → V → Cmd V
pure v = λ h. some (v, h)

-- What follows a command, on the heap that the command leaves.
abbrev pub resume : {V W : Type 0} → (V → Cmd W) → Option (V × Heap) → Option (W × Heap)
resume rest (some (v, h)) = rest v h
resume rest none = none

infixl 10 ◌>>=◌
abbrev pub ◌>>=◌ : {V W : Type 0} → Cmd V → (V → Cmd W) → Cmd W
command >>= rest = λ h. resume rest (command h)

infixl 10 ◌>>◌
abbrev pub ◌>>◌ : {V W : Type 0} → Cmd V → Cmd W → Cmd W
first >> second = λ h. resume (λ _. second) (first h)

abbrev pub write : ℕ → Cell → Heap → Heap
write a c h = record h { cell = λ b. if b == a then some c else h.cell b }

module _ {V : Type 0} (type : CellType V) where
  -- The value at an address, if a cell of the type is there.
  abbrev pub value_at : Heap → ℕ → Option V
  value_at h a = elim (h.cell a) [ none ↦ none | some c ↦ type.unwrap c ]

  -- `new(T)`
  unfoldable pub new : V → Cmd ℕ
  new zero_value h = some (h.top, write h.top (type.wrap zero_value) (record h { top = suc h.top }))

  -- `*a`
  unfoldable pub load : ℕ → Cmd V
  load a h = elim (value_at h a) [ none ↦ none | some v ↦ some (v, h) ]

  -- `*a = v`
  unfoldable pub store : ℕ → V → Cmd (Unit {0})
  store a v h = elim (value_at h a) [ none ↦ none | some _ ↦ some (tt, write a (type.wrap v) h) ]
