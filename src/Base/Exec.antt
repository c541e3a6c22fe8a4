-- ===== src/Base/Exec.antt =====
-- Go functions that call the cluster: from a state to an outcome and the next state. A Go `error`
-- that is returned at once is `err`, and a panic ends every function on the way.
use mathlib.Core.Path.{◌≡◌, refl}
use mathlib.Core.Logic.{◌≢◌}
use mathlib.Core.Option.{Option, none, some}

pub data Outcome (E : Type 0) (A : Type 0) : Type 0 where
  ok : A → Outcome E A
  err : E → Outcome E A
  panic : Outcome E A

abbrev pub Exec : Type 0 → Type 0 → Type 0 → Type 0
Exec S E A = S → Outcome E A × S

-- The answer of a read, `x, err := get()`, where the code goes on to look at `err`.
pub data Reply (E : Type 0) (A : Type 0) : Type 0 where
  found : A → Reply E A
  failed : E → Reply E A

-- A Go `error`: `none` is nil.
abbrev pub returned : {E : Type 0} → Option E → Outcome E (Unit {0})
returned none = ok tt
returned (some e) = err e

module _ {S E A : Type 0} where
  abbrev pub pure : A → Exec S E A
  pure a s = (ok a, s)

  abbrev pub fail : E → Exec S E A
  fail e s = (err e, s)

  -- A pure computation that may panic.
  abbrev pub lift : Outcome E A → Exec S E A
  lift r s = (r, s)

  -- A call whose answer the code looks at.
  abbrev pub ask : (S → A × S) → Exec S E A
  ask f s = let (a, s') = f s in (ok a, s')

module _ {S E : Type 0} where
  -- `if err := f(); err != nil { return err }`
  abbrev pub call : (S → Option E × S) → Exec S E (Unit {0})
  call f s = let (e, s') = f s in (returned e, s')

module _ {S E A B : Type 0} where
  abbrev pub continue : Outcome E A → (A → Exec S E B) → Exec S E B
  continue (ok a) f s = f a s
  continue (err e) f s = (err e, s)
  continue panic f s = (panic, s)

  infixl 10 ◌>>=◌ ◌>>◌
  -- `x, err := m(); if err != nil { return err }`, and on with `f(x)`
  abbrev pub ◌>>=◌ : Exec S E A → (A → Exec S E B) → Exec S E B
  ◌>>=◌ m f s = let (r, s') = m s in continue r f s'

  abbrev pub ◌>>◌ : Exec S E A → Exec S E B → Exec S E B
  m >> k = m >>= λ _. k

  -- What holds where `m` stops and where the rest stops holds after both.
  pub continue_state :
      (R : S → Type 0) (f : A → Exec S E B) (r : Outcome E A) (s : S)
      → R s
      → ((a : A) → r ≡ ok a → R (f a s).1)
      → R (continue r f s).1
  continue_state R f (ok a) s h k = k a refl
  continue_state R f (err e) s h k = h
  continue_state R f panic s h k = h

  -- A sequence that succeeds has parts that succeed.
  pub continue_ok :
      (f : A → Exec S E B) (r : Outcome E A) (s : S) (b : B)
      → (continue r f s).0 ≡ ok b
      → (a : A) × (r ≡ ok a) × ((f a s).0 ≡ ok b)
  continue_ok f (ok a) s b h = (a, refl, h)
  continue_ok f (err e) s b h = cc
  continue_ok f panic s b h = cc

-- A sequence stops in its first part without a result, or goes on with one.
module _ {S E A B : Type 0} (R : Outcome E B × S → Type 0) where
  continue_rule :
      (f : A → Exec S E B) (r : Outcome E A) (t : S)
      → ((o : Outcome E B) → ((b : B) → o ≢ ok b) → R (o, t))
      → ((a : A) → r ≡ ok a → R (f a t))
      → R (continue r f t)
  continue_rule f (ok a) t stop go = go a refl
  continue_rule f (err e) t stop go = stop (err e) (λ b p. cc)
  continue_rule f panic t stop go = stop panic (λ b p. cc)

  pub bind_rule :
      (x : Exec S E A) (f : A → Exec S E B) (s : S)
      → ((o : Outcome E B) → ((b : B) → o ≢ ok b) → R (o, (x s).1))
      → ((a : A) → (x s).0 ≡ ok a → R (f a (x s).1))
      → R ((x >>= f) s)
  bind_rule x f s = continue_rule f (x s).0 (x s).1

returned_cases :
    {S E : Type 0} (R : Outcome E (Unit {0}) × S → Type 0) (t : S) (r : Option E)
    → (r ≡ none → R (ok tt, t))
    → ((e : E) → r ≡ some e → R (err e, t))
    → R (returned r, t)
returned_cases R t none done refused = done refl
returned_cases R t (some e) done refused = refused e refl

-- A call ends with or without an error.
pub call_rule :
    {S E : Type 0} (R : Outcome E (Unit {0}) × S → Type 0) (f : S → Option E × S) (s : S)
    → ((f s).0 ≡ none → R (ok tt, (f s).1))
    → ((e : E) → (f s).0 ≡ some e → R (err e, (f s).1))
    → R (call f s)
call_rule R f s done refused = returned_cases R (f s).1 (f s).0 done refused

pub ok_injective : {E A : Type 0} (a b : A) → ◌≡◌ {A = Outcome E A} (ok a) (ok b) → a ≡ b
ok_injective a b p = cc

pub returned_ok : {E : Type 0} (r : Option E) → returned r ≡ ok tt → r ≡ none
returned_ok none h = refl
returned_ok (some e) h = cc

-- A call, and then a result: `if err := f(); err != nil { return err }; return b`.
module _ {S E B : Type 0} (R : Outcome E B × S → Type 0) (b : B) where
  returned_then :
      (t : S) (r : Option E)
      → (r ≡ none → R (ok b, t))
      → ((e : E) → r ≡ some e → R (err e, t))
      → R (continue (returned r) (λ _. pure b) t)
  returned_then t none done refused = done refl
  returned_then t (some e) done refused = refused e refl

  pub call_then_rule :
      (f : S → Option E × S) (s : S)
      → ((f s).0 ≡ none → R (ok b, (f s).1))
      → ((e : E) → (f s).0 ≡ some e → R (err e, (f s).1))
      → R ((call f >> pure b) s)
  call_then_rule f s = returned_then (f s).1 (f s).0

pub returned-ne-panic : {E : Type 0} (r : Option E) → returned r ≢ panic
returned-ne-panic none p = cc
returned-ne-panic (some e) p = cc

-- Functions that panic only where `U` holds.
module _ {S E : Type 0} (U : Type 0) where
  abbrev pub PanicsOnly : {A : Type 0} → Exec S E A → Type 0
  PanicsOnly x = (s : S) → (x s).0 ≡ panic → U

  pub pure_panics : {A : Type 0} (a : A) → PanicsOnly {A = A} (pure a)
  pure_panics a s p = cc

  pub call_panics : (f : S → Option E × S) → PanicsOnly (call f)
  call_panics f s p = absurd (returned-ne-panic (f s).0 p)

  continue_panics :
      {A B : Type 0} (f : A → Exec S E B) (r : Outcome E A) (t : S)
      → (r ≡ panic → U)
      → ((a : A) → r ≡ ok a → (f a t).0 ≡ panic → U)
      → (continue r f t).0 ≡ panic
      → U
  continue_panics f (ok a) t first go p = go a refl p
  continue_panics f (err e) t first go p = cc
  continue_panics f panic t first go p = first refl

  -- A sequence panics only where one of its parts does.
  pub bind_panics :
      {A B : Type 0} (x : Exec S E A) (f : A → Exec S E B)
      → PanicsOnly x
      → ((a : A) → PanicsOnly (f a))
      → PanicsOnly (x >>= f)
  bind_panics x f first go s = continue_panics f (x s).0 (x s).1 (first s) (λ a _. go a (x s).1)
