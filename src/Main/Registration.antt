-- ===== src/Main/Registration.antt =====
-- What the program's `init` registers.
use nfs_provisioner_operator.Base.{
  true, none, some, Option, [], ◌∷◌, ◌≡◌, refl, ◌∙◌, subst, inl, inr,
}
use nfs_provisioner_operator.Base.Lists.{Elem}
use nfs_provisioner_operator.Base.Exec.{ok, continue_ok, ◌>>◌}
use nfs_provisioner_operator.Scheme.{
  GoType, nfs_provisioner, nfs_provisioner_list, group_version, SchemeLibrary, IsScheme,
  scheme_builder, add_to_scheme,
}
use nfs_provisioner_operator.Main.{panic_on, must, init}

panic_on-ok : {E : Type 0} (e : Option E) → panic_on e ≡ ok tt → e ≡ none
panic_on-ok none h = refl
panic_on-ok (some e) h = cc

module _ (S : SchemeLibrary) (L : IsScheme S) where
  open L use {version, types}

  version-scheme_builder : version (scheme_builder S) ≡ group_version
  version-scheme_builder = L.version-register _ _ ∙ L.version-new group_version

  listed-scheme_builder : (t : GoType) → Elem t (types (scheme_builder S))
  listed-scheme_builder t = rw (L.types-register, L.types-new) (of_type t)
    where
      of_type : (t : GoType) → Elem t (nfs_provisioner ∷ nfs_provisioner_list ∷ [])
      of_type nfs_provisioner = inl refl
      of_type nfs_provisioner_list = inr (inl refl)

  add_to_scheme-recognizes :
      (s : S.Scheme) (t : GoType)
      → (add_to_scheme S s).0 ≡ none
      → S.recognizes (add_to_scheme S s).1 group_version t ≡ true
  unfolding add_to_scheme
  add_to_scheme-recognizes s t h =
      subst (λ v. S.recognizes (S.add_to_scheme (scheme_builder S) s).1 v t ≡ true)
        version-scheme_builder (L.add-recognizes (scheme_builder S) s t h (listed-scheme_builder t))

  -- If the program's `init` does not panic, the scheme with which it goes on recognizes both types
  -- of the package, the resource and the list, under the group and version of the custom resource.
  pub init-recognizes :
      (s : S.Scheme) (t : GoType)
      → (init S s).0 ≡ ok tt
      → S.recognizes (init S s).1 group_version t ≡ true
  unfolding init
  init-recognizes s t h =
      let one = (S.client_go s).1 in
      let two = (add_to_scheme S one).1 in
      let (_, first, rest) =
        continue_ok (λ _. must (add_to_scheme S) >> must S.security_v1) (panic_on (S.client_go s).0)
          one tt h in
      let (_, second, _) =
        continue_ok (λ _. must S.security_v1) (panic_on (add_to_scheme S one).0) two tt rest in
      rw (first, second)
        (L.security_v1-keeps two group_version t
          (add_to_scheme-recognizes one t (panic_on-ok (add_to_scheme S one).0 second)))
