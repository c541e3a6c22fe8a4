-- ===== src/DeepCopy/Go.antt =====
-- What Go's `make`, `copy`, indexing and map assignment do, and how a pointer is copied.
use mathlib.Core.Option
use nfs_provisioner_operator.Base.{
  ℕ, zero, suc, String, Option, none, some, List, [], ◌∷◌, if◌then◌else◌,
}
use nfs_provisioner_operator.Base
use nfs_provisioner_operator.DeepCopy.Types.{Ptr, CellType}
use nfs_provisioner_operator.DeepCopy.Heap.{Cmd, pure, ◌>>=◌, ◌>>◌, new, load, store}

-- `make([]T, len(xs))`
abbrev pub make : {A B : Type 0} → B → List A → List B
make zero_value [] = []
make zero_value (x ∷ xs) = zero_value ∷ make zero_value xs

-- `copy(out, in)`, which stops at the end of the shorter slice
abbrev pub copy : {A : Type 0} → List A → List A → List A
copy [] ys = []
copy (x ∷ xs) [] = x ∷ xs
copy (x ∷ xs) (y ∷ ys) = y ∷ copy xs ys

-- `m[key] = val`
abbrev pub put : String → String → List (String × String) → List (String × String)
put key val [] = (key, val) ∷ []
put key val ((k, v) ∷ m) = if Base.◌==◌ k key then (k, val) ∷ m else (k, v) ∷ put key val m

-- `xs[i] = x`, with a panic out of range
abbrev pub set_at : {A : Type 0} → ℕ → A → List A → Option (List A)
set_at i x [] = none
set_at zero x (y ∷ ys) = some (x ∷ ys)
set_at (suc i) x (y ∷ ys) = Option.map (λ zs. y ∷ zs) (set_at i x ys)

abbrev pub or_panic : {A : Type 0} → Option A → Cmd A
or_panic none = λ h. none
or_panic (some x) = pure x

-- `if in != nil { out = new(T); in.DeepCopyInto(out) }`
unfoldable pub copy_pointer : {V : Type 0} → CellType V → V → (V → Cmd V) → Ptr → Cmd Ptr
copy_pointer type zero_value deep_copy_into none = pure none
copy_pointer type zero_value deep_copy_into (some a) = do
  out ← new type zero_value
  v ← load type a
  w ← deep_copy_into v
  store type out w
  pure (some out)
