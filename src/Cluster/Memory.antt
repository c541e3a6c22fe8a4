-- ===== src/Cluster/Memory.antt =====
-- A cluster in memory: an instance of the platform that meets what the operator assumes. It can be
-- told which of the next calls are to fail.
pub mod Tables
mod Views
pub mod Laws
pub mod Helpers
pub mod Answers
use Tables.{write}
use nfs_provisioner_operator.Base.{
  zero, suc, String, Bool, true, false, not, ◌&&◌, ◌||◌, Option, some, none, List, [], ◌∷◌, ◌++◌,
  ◌==◌, if◌then◌else◌, is_set,
}
use nfs_provisioner_operator.Base.Exec.{Reply, found, failed}
use nfs_provisioner_operator.Kube.Meta.{ObjectMeta, Time, NamespacedName, same_name, key_of}
use nfs_provisioner_operator.Kube.Core.{Quantity}
use nfs_provisioner_operator.Api.{NfsProvisioner}
use nfs_provisioner_operator.Cluster.{
  Kind, Object, meta, Platform, nfs_provisioner, custom_resource_definition,
  security_context_constraints, persistent_volume_claim, service_account, cluster_role,
  cluster_role_binding, role, role_binding, deployment, service, storage_class,
}
use nfs_provisioner_operator.Cluster.Laws.{View, key, controller_of}

pub data MemoryError : Type 0 where
  not_found already_exists conflict unavailable : MemoryError

pub record Memory : Type 0 where
  pub tables : View
  pub outages : List Bool

abbrev pub next_fails : List Bool → Bool
next_fails [] = false
next_fails (fails ∷ _) = fails

abbrev pub tick : Memory → Memory
tick s = record s { outages = elim s.outages [ [] ↦ [] | _ ∷ rest ↦ rest ] }

abbrev pub has_finalizers : ObjectMeta → Bool
has_finalizers m = elim m.finalizers [ [] ↦ false | _ ∷ _ ↦ true ]

abbrev is_live : ObjectMeta → Bool
is_live m = elim m.deletion_timestamp [ none ↦ true | some _ ↦ has_finalizers m ]

-- An object counts if it stands under its own name and is not gone.
abbrev pub live : (k : Kind) → NamespacedName → Option (Object k) → Option (Object k)
live k n none = none
live k n (some o) = if same_name (key k o) n && is_live (meta k o) then some o else none

abbrev pub memory_view : Memory → View
memory_view s k n = live k n (s.tables k n)

abbrev pub written : (k : Kind) → NamespacedName → Option (Object k) → Memory → Memory
written k n o s = record s { tables = write k n o s.tables }

abbrev answer : (k : Kind) → Option (Object k) → Reply MemoryError (Object k)
answer k none = failed not_found
answer k (some o) = found o

abbrev pub memory_get : (k : Kind) → NamespacedName → Memory → Reply MemoryError (Object k) × Memory
memory_get k n s =
    (if next_fails s.outages then failed unavailable else answer k (memory_view s k n), tick s)

-- A write: its new content, or the error.
pub data Change (k : Kind) : Type 0 where
  content : Option (Object k) → Change k
  refusal : MemoryError → Change k

abbrev pub change : (k : Kind) → NamespacedName → Change k → Memory → Option MemoryError × Memory
change k n (content o) s = (none, written k n o s)
change k n (refusal e) s = (some e, s)

abbrev pub commit :
    (k : Kind)
    → NamespacedName
    → (Option (Object k) → Change k)
    → Memory
    → Option MemoryError × Memory
commit k n decide s =
    if next_fails s.outages
    then (some unavailable, tick s)
    else change k n (decide (memory_view s k n)) (tick s)

abbrev pub creation : (k : Kind) → Object k → Option (Object k) → Change k
creation k o none = if is_live (meta k o) then content (some o) else refusal conflict
creation k o (some _) = refusal already_exists

abbrev pub replacement : (k : Kind) → Object k → Option (Object k) → Change k
replacement k o none = refusal not_found
replacement k o (some _) = content (some o)

abbrev pub with_status : (k : Kind) → Object k → Object k → Object k
with_status nfs_provisioner old new = record old { status = new.status }
with_status _ old new = old

abbrev pub status_change : (k : Kind) → Object k → Option (Object k) → Change k
status_change k o none = refusal not_found
status_change k o (some old) = content (some (with_status k old o))

abbrev with_meta : (k : Kind) → Object k → ObjectMeta → Object k
with_meta nfs_provisioner o m = record o { metadata = m }
with_meta custom_resource_definition o m = record o { metadata = m }
with_meta security_context_constraints o m = record o { metadata = m }
with_meta persistent_volume_claim o m = record o { metadata = m }
with_meta service_account o m = record o { metadata = m }
with_meta cluster_role o m = record o { metadata = m }
with_meta cluster_role_binding o m = record o { metadata = m }
with_meta role o m = record o { metadata = m }
with_meta role_binding o m = record o { metadata = m }
with_meta deployment o m = record o { metadata = m }
with_meta service o m = record o { metadata = m }
with_meta storage_class o m = record o { metadata = m }

-- The object is marked for deletion.
abbrev pub marked : (k : Kind) → Object k → Object k
marked k o = with_meta k o (record (meta k o) { deletion_timestamp = some 1 })

abbrev pub removal : (k : Kind) → Option (Object k) → Change k
removal k none = refusal not_found
removal k (some old) =
    if has_finalizers (meta k old) then content (some (marked k old)) else content none

abbrev pub refer : NfsProvisioner → ObjectMeta → Option MemoryError × ObjectMeta
refer m o =
    if is_set m.metadata.namespace && not (o.namespace == m.metadata.namespace)
    then (some conflict, o)
    else (none, record o { owner_references = o.owner_references ++ controller_of m ∷ [] })

unfoldable pub listed : String → List String → Bool
listed f [] = false
listed f (g ∷ fs) = g == f || listed f fs

pub unlisted : String → List String → List String
unlisted f [] = []
unlisted f (g ∷ fs) = let rest = unlisted f fs in if g == f then rest else g ∷ rest

abbrev pub add : ObjectMeta → String → ObjectMeta
add o f = if listed f o.finalizers then o else record o { finalizers = o.finalizers ++ f ∷ [] }

abbrev is_error_not_found : MemoryError → Bool
is_error_not_found not_found = true
is_error_not_found _ = false

-- Two sizes are read, and all others are no quantities.
abbrev size_of : String → Option Quantity
size_of size =
    if size == "10G" then some 10000000000 else if size == "10Gi" then some 10737418240 else none

abbrev pub memory : Platform
memory = record {
  State = Memory;
  Error = MemoryError;
  is_not_found = is_error_not_found;
  ignore_not_found = λ e. if is_error_not_found e then none else some e;
  get = memory_get;
  create = λ k o. commit k (key k o) (creation k o);
  update = λ k o. commit k (key k o) (replacement k o);
  update_status = λ k o. commit k (key k o) (status_change k o);
  delete = λ k o. commit k (key k o) (removal k);
  set_controller_reference = refer;
  add_finalizer = add;
  remove_finalizer = λ o f. record o { finalizers = unlisted f o.finalizers };
  is_zero = λ t. elim t [ none ↦ true | some n ↦ elim n [ zero ↦ true | suc _ ↦ false ] ];
  parse_quantity = size_of;
}
