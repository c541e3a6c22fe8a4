-- ===== src/Scheme.antt =====
-- api/v1alpha1/groupversion_info.go, and the registration in nfsprovisioner_types.go: the group and
-- version of the custom resource, and the Go types that its `AddToScheme` adds to a scheme.
use nfs_provisioner_operator.Base.{String, Bool, true, Option, none, List, [], ◌∷◌, ◌++◌, ◌≡◌}
use nfs_provisioner_operator.Base.Lists.{Elem}

-- `schema.GroupVersion`
pub record GroupVersion : Type 0 where
  pub group : String
  pub version : String

abbrev pub group_version : GroupVersion
group_version = record { group = "cache.jhouse.com"; version = "v1alpha1" }

-- The Go types of the group.
pub data GoType : Type 0 where
  nfs_provisioner nfs_provisioner_list : GoType

-- The scheme and its builder in the libraries. `register` gives the builder after `Register`;
-- `client_go` and `security_v1` are the `AddToScheme` of those packages.
pub record SchemeLibrary : Type 1 where
  pub Scheme : Type 0
  pub Error : Type 0
  pub Builder : Type 0
  pub new_builder : GroupVersion → Builder
  pub register : List GoType → Builder → Builder
  pub add_to_scheme : Builder → Scheme → Option Error × Scheme
  pub client_go : Scheme → Option Error × Scheme
  pub security_v1 : Scheme → Option Error × Scheme
  pub recognizes : Scheme → GroupVersion → GoType → Bool

module _ (S : SchemeLibrary) where
  -- `SchemeBuilder`, after the package's `init`.
  abbrev pub scheme_builder : S.Builder
  scheme_builder =
      S.register (nfs_provisioner ∷ nfs_provisioner_list ∷ []) (S.new_builder group_version)

  -- `AddToScheme`: the method of the builder, to which the variable holds a pointer.
  unfoldable pub add_to_scheme : S.Scheme → Option S.Error × S.Scheme
  add_to_scheme scheme = S.add_to_scheme scheme_builder scheme

-- What the libraries do: a builder has a version and the types that were registered, in order; to
-- add it makes them known; and the types of another package take none away.
pub record IsScheme (S : SchemeLibrary) : Type 0 where
  pub version : S.Builder → GroupVersion
  pub types : S.Builder → List GoType
  pub version-new : (v : GroupVersion) → version (S.new_builder v) ≡ v
  pub version-register : (ts : List GoType) (b : S.Builder) → version (S.register ts b) ≡ version b
  pub types-register : (ts : List GoType) (b : S.Builder) → types (S.register ts b) ≡ types b ++ ts
  pub types-new : (v : GroupVersion) → types (S.new_builder v) ≡ []
  pub add-recognizes :
      (b : S.Builder) (s : S.Scheme) (t : GoType)
      → (S.add_to_scheme b s).0 ≡ none
      → Elem t (types b)
      → S.recognizes (S.add_to_scheme b s).1 (version b) t ≡ true
  pub security_v1-keeps :
      (s : S.Scheme) (v : GroupVersion) (t : GoType)
      → S.recognizes s v t ≡ true
      → S.recognizes (S.security_v1 s).1 v t ≡ true
