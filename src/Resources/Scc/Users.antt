-- ===== src/Resources/Scc/Users.antt =====
-- The search for the service account among the users of security context constraints.
use nfs_provisioner_operator.Base.{
  String, ◌<>◌, true, List, [], ◌∷◌, ◌++◌, ◌≡◌, refl, inl, inr, Bool-cases, arith, subst,
}
use text.Mathlib.TextLemmas.{append-nil}
use nfs_provisioner_operator.Base.Lists.{Elem}
use nfs_provisioner_operator.Base.Texts.{contains, contains-append}
use nfs_provisioner_operator.Resources.Scc.{user_part, user_to_add, user_exists}

pub contains-user_to_add :
    (namespace : String) → contains (user_to_add namespace) (user_part namespace) ≡ true
contains-user_to_add namespace =
    subst (λ t. contains ("system:serviceaccount:" <> t) (user_part namespace) ≡ true)
      (append-nil (user_part namespace))
      (contains-append "system:serviceaccount:" (user_part namespace) "")

-- Once added, the user is found.
pub user_exists-added :
    (namespace : String) (users : List String)
    → user_exists namespace (users ++ user_to_add namespace ∷ []) ≡ true
unfolding user_exists
user_exists-added namespace [] = ground (arith, contains-user_to_add namespace)
user_exists-added namespace (user ∷ users) = ground (arith, user_exists-added namespace users)

user_exists-witness :
    (namespace : String) (users : List String)
    → user_exists namespace users ≡ true
    → (u : String) × Elem u users × (contains u (user_part namespace) ≡ true)
unfolding user_exists
user_exists-witness namespace [] h = cc
user_exists-witness namespace (user ∷ users) h =
    elim (Bool-cases (contains user (user_part namespace))) [
      | inl here ↦ (user, inl refl, here)
      | inr later ↦
          let (u, m, c) = user_exists-witness namespace users (ground arith) in (u, inr m, c)
    ]

pub user_exists-Elem :
    (namespace u : String) (users : List String)
    → Elem u users
    → contains u (user_part namespace) ≡ true
    → user_exists namespace users ≡ true
unfolding user_exists
user_exists-Elem namespace u [] m h = absurd m
user_exists-Elem namespace u (user ∷ users) (inl e) h = ground arith
user_exists-Elem namespace u (user ∷ users) (inr m) h =
    ground (arith, user_exists-Elem namespace u users m h)

-- A user that is found in a list is found in every list that has all its users.
pub user_exists-grow :
    (namespace : String) (users more : List String)
    → ((u : String) → Elem u users → Elem u more)
    → user_exists namespace users ≡ true
    → user_exists namespace more ≡ true
user_exists-grow namespace users more sub h =
    let (u, m, c) = user_exists-witness namespace users h in
    user_exists-Elem namespace u more (sub u m) c
