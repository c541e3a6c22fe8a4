-- ===== src/Resources/Scc/Mistakes.antt =====
-- Where the search for the user is mistaken.
use nfs_provisioner_operator.Base.{String, ◌<>◌, true, ◌≡◌, sym, ◌∙◌, ap, subst}
use text.Mathlib.TextLemmas.{append-nil, append_assoc}
use nfs_provisioner_operator.Base.Lists.{Elem}
use nfs_provisioner_operator.Base.Texts.{contains, contains-append}
use nfs_provisioner_operator.Base.Exec.{ok}
use nfs_provisioner_operator.Kube.Security.{SecurityContextConstraints}
use nfs_provisioner_operator.Api.{NfsProvisioner}
use nfs_provisioner_operator.Cluster.{Platform}
use nfs_provisioner_operator.Resources.Scc.{user_part, user_to_add, add_user}
use nfs_provisioner_operator.Resources.Scc.Users.{user_exists-Elem}

contains-longer :
    (prefix namespace : String)
    → contains (user_to_add (prefix <> namespace)) (user_part namespace) ≡ true
contains-longer prefix namespace =
    subst (λ t. contains t (user_part namespace) ≡ true) same
      (contains-append ("system:serviceaccount:" <> prefix) (user_part namespace) "")
  where
    same :
        ("system:serviceaccount:" <> prefix) <> (user_part namespace <> "")
        ≡ user_to_add (prefix <> namespace)
    same =
        ap (λ t. ("system:serviceaccount:" <> prefix) <> t) (append-nil (user_part namespace))
        ∙ append_assoc "system:serviceaccount:" prefix (user_part namespace)
        ∙ ap (λ t. "system:serviceaccount:" <> t) (sym (append_assoc prefix namespace _))

-- If the constraints list the service account of a namespace whose name ends in the name of the
-- resource's namespace, the manager succeeds and writes nothing, whether or not the account of the
-- resource's namespace is listed.
pub add_user-mistaken :
    (P : Platform) (m : NfsProvisioner) (scc : SecurityContextConstraints) (prefix : String)
    (s : P.State)
    → Elem (user_to_add (prefix <> m.metadata.namespace)) scc.users
    → add_user P m scc s ≡ (ok tt, s)
unfolding add_user
add_user-mistaken P m scc prefix s listed = rw (
    user_exists-Elem m.metadata.namespace _ scc.users listed
      (contains-longer prefix m.metadata.namespace))
