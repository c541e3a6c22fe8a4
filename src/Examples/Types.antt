-- ===== src/Examples/Types.antt =====
-- A scheme as the set of the types that it knows.
use nfs_provisioner_operator.Base.{
  Bool, true, false, none, List, [], ◌∷◌, ◌++◌, ◌≡◌, refl, ◌&&◌, ◌||◌, ◌==◌, eq_refl, inl, inr,
  arith, Option,
}
use nfs_provisioner_operator.Base.Lists.{Elem}
use nfs_provisioner_operator.Scheme.{
  GroupVersion, GoType, nfs_provisioner, nfs_provisioner_list, SchemeLibrary, IsScheme,
}

abbrev same_type : GoType → GoType → Bool
same_type nfs_provisioner nfs_provisioner = true
same_type nfs_provisioner_list nfs_provisioner_list = true
same_type _ _ = false

abbrev type_listed : GoType → List GoType → Bool
type_listed t [] = false
type_listed t (u ∷ ts) = same_type u t || type_listed t ts

abbrev same_version : GroupVersion → GroupVersion → Bool
same_version v w = v.group == w.group && v.version == w.version

abbrev Known : Type 0
Known = GroupVersion → GoType → Bool

abbrev add : GroupVersion × List GoType → Known → Option Bool × Known
add (v, ts) known = (none, λ w t. same_version v w && type_listed t ts || known w t)

abbrev pub known_types : SchemeLibrary
known_types = record {
  Scheme = Known;
  Error = Bool;
  Builder = GroupVersion × List GoType;
  new_builder = λ v. (v, []);
  register = λ ts b. (b.0, b.1 ++ ts);
  add_to_scheme = add;
  client_go = λ known. (none, known);
  security_v1 = λ known. (none, known);
  recognizes = λ known v t. known v t;
}

abbrev pub no_types : Known
no_types v t = false

Elem-type_listed : (t : GoType) (ts : List GoType) → Elem t ts → type_listed t ts ≡ true
Elem-type_listed t [] h = absurd h
Elem-type_listed nfs_provisioner (u ∷ ts) (inl e) = ground arith
Elem-type_listed nfs_provisioner_list (u ∷ ts) (inl e) = ground arith
Elem-type_listed t (u ∷ ts) (inr h) = ground (arith, Elem-type_listed t ts h)

add-recognizes :
    (b : GroupVersion × List GoType) (known : Known) (t : GoType)
    → Elem t b.1
    → (add b known).1 b.0 t ≡ true
add-recognizes (v, ts) known t h =
    ground (arith, eq_refl v.group, eq_refl v.version, Elem-type_listed t ts h)

pub known_types-IsScheme : IsScheme known_types
known_types-IsScheme = record {
  version = λ b. b.0;
  types = λ b. b.1;
  version-new = λ v. refl;
  version-register = λ ts b. refl;
  types-register = λ ts b. refl;
  types-new = λ v. refl;
  add-recognizes = λ b known t done h. add-recognizes b known t h;
  security_v1-keeps = λ known v t h. h;
}
