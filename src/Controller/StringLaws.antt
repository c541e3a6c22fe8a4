-- ===== src/Controller/StringLaws.antt =====
-- What the helpers on slices of strings answer.
use nfs_provisioner_operator.Base.{
  String, true, List, [], ◌∷◌, ◌≡◌, ◌↔◌, refl, arith, ◌==◌, eq_iff, not, ◌&&◌,
}
use nfs_provisioner_operator.Base.Lists.{Elem}
use nfs_provisioner_operator.Controller.Strings.{contains_string, remove_string}

-- `containsString` answers true exactly for the elements of the slice.
pub contains_string_iff :
    (slice : List String) (s : String) → (contains_string slice s ≡ true) ↔ Elem s slice
unfolding contains_string
contains_string_iff [] s = (λ h. cc, λ h. absurd h)
contains_string_iff (item ∷ slice) s = ground (arith, eq_iff item s, contains_string_iff slice s)

-- After `removeString` the slice contains a string exactly if it did before and the string is not
-- the one removed.
pub contains_string-remove_string :
    (slice : List String) (s t : String)
    → contains_string (remove_string slice s) t ≡ (contains_string slice t && not (s == t))
unfolding contains_string remove_string
contains_string-remove_string [] s t = refl
contains_string-remove_string (item ∷ slice) s t =
    ground
      (arith, eq_iff item s, eq_iff item t, eq_iff s t, contains_string-remove_string slice s t)
