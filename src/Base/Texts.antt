-- ===== src/Base/Texts.antt =====
-- Go's `strings.Contains`, by the characters of the two texts, with what its answer means.
use Prim.Native.Nat.{compare, Ordering}
use Prim.Native.Char.{Char, code}
use Prim.Native.String.append
use Prim.Native.String.{String, [], ◌∷◌, ◌++◌}
use mathlib.Core.Path.{◌≡◌, refl, sym, subst, ◌∙◌, ap}
use mathlib.Core.Logic.{inl, inr}
use mathlib.Core.Bool.{Bool, true, false, ◌&&◌, ◌||◌}
use native.Mathlib.Omega.{arith}
use text.Mathlib.TextEquality.{codes_equal}
use text.Mathlib.TextLemmas.{append_assoc}
use nfs_provisioner_operator.Base.Tests.{Bool-cases}

abbrev char_eq : Char → Char → Bool
char_eq c d = elim (compare (code c) (code d)) [ Ordering.eq ↦ true | _ ↦ false ]

-- `strings.HasPrefix(s, t)`
unfoldable has_prefix : String → String → Bool
has_prefix s [] = true
has_prefix [] (d ∷ t) = false
has_prefix (c ∷ s) (d ∷ t) = char_eq c d && has_prefix s t

-- `strings.Contains(s, t)`
pub contains : String → String → Bool
unfolding has_prefix
contains [] t = has_prefix [] t
contains (c ∷ s) t = has_prefix (c ∷ s) t || contains s t

has_prefix-append : (t v : String) → has_prefix (t ++ v) t ≡ true
unfolding has_prefix
has_prefix-append [] v = refl
has_prefix-append (c ∷ t) v = rw (append.cons c t v) (ground (arith, has_prefix-append t v))

contains-prefix : (s t : String) → has_prefix s t ≡ true → contains s t ≡ true
unfolding contains
contains-prefix [] t h = h
contains-prefix (c ∷ s) t h = ground arith

-- A text contains each of its parts.
pub contains-append : (u t v : String) → contains (u ++ (t ++ v)) t ≡ true
unfolding contains
contains-append [] t v =
    rw (append.nil (t ++ v)) (contains-prefix (t ++ v) t (has_prefix-append t v))
contains-append (c ∷ u) t v = rw (append.cons c u (t ++ v)) (ground (arith, contains-append u t v))

-- A part of a rest is a part of the whole.
pub contains-more : (u s t : String) → contains s t ≡ true → contains (u ++ s) t ≡ true
unfolding contains
contains-more [] s t h = rw (append.nil s) h
contains-more (c ∷ u) s t h = rw (append.cons c u s) (ground (arith, contains-more u s t h))

-- A text that begins with a label and a value contains the two together.
pub contains_labelled :
    (label value rest : String) → contains (label ++ (value ++ rest)) (label ++ value) ≡ true
contains_labelled label value rest =
    subst (λ s. contains s (label ++ value) ≡ true) (append_assoc label value rest)
      (contains-prefix ((label ++ value) ++ rest) (label ++ value)
        (has_prefix-append (label ++ value) rest))

-- The same behind a first part that is joined otherwise.
pub contains_behind :
    (u v w s t : String) → contains (w ++ s) t ≡ true → contains (u ++ ((v ++ w) ++ s)) t ≡ true
contains_behind u v w s t h =
    subst (λ r. contains (u ++ r) t ≡ true) (sym (append_assoc v w s))
      (contains-more u (v ++ (w ++ s)) t (contains-more v (w ++ s) t h))

has_prefix-eq : (s t : String) → has_prefix s t ≡ true → (v : String) × (s ≡ t ++ v)
unfolding has_prefix
has_prefix-eq s [] h = (s, sym (append.nil s))
has_prefix-eq [] (d ∷ t) h = cc
has_prefix-eq (c ∷ s) (d ∷ t) h =
    let (v, e) = has_prefix-eq s t (ground arith) in
    (v, ap (λ w. c ∷ w) e ∙ ap (λ (k : Char). k ∷ (t ++ v)) same ∙ sym (append.cons d t v))
  where
    same : c ≡ d
    same = codes_equal c d (ground arith)

-- And what it contains is a part of it.
contains-eq :
    (s t : String) → contains s t ≡ true → (u : String) × (v : String) × (s ≡ u ++ (t ++ v))
unfolding contains
contains-eq [] t h = let (v, e) = has_prefix-eq [] t h in ([], v, e ∙ sym (append.nil (t ++ v)))
contains-eq (c ∷ s) t h = elim (Bool-cases (has_prefix (c ∷ s) t)) [
  | inl first ↦ let (v, e) = has_prefix-eq (c ∷ s) t first in ([], v, e ∙ sym (append.nil (t ++ v)))
  | inr later ↦
      let (u, v, e) = contains-eq s t (ground arith) in
      (c ∷ u, v, ap (λ w. c ∷ w) e ∙ sym (append.cons c u (t ++ v)))
]
