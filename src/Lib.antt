-- ===== src/Lib.antt =====
-- The NFS provisioner operator: a controller that keeps, for each custom resource
-- `NFSProvisioner`, the Kubernetes objects of an NFS server in the cluster.
--
-- The program. `cmd/main.go` makes a manager of controller-runtime and the reconciler of
-- `controllers/nfsprovisioner_controller.go`, whose `Reconcile` is called with the name of a
-- resource. It reads the resource, refuses one with contradictory settings, has
-- `EnsureAllResources` (`controllers/resources/manager.go`) run the seven managers in order, and
-- then either registers its finalizer or, if the resource is being deleted, deletes the cluster
-- role and its binding and takes the finalizer away. Each manager reads one object (four for
-- access control) and creates it if it is missing; the one for security context constraints also
-- adds a user to constraints that exist.
--
-- The files.
--   Base       conditionals and tests, lists, texts (`strings.Contains`), and `Exec`: Go functions
--              that call the cluster, as functions from a state to an outcome (a result, an error,
--              or a panic) and the next state.
--   Kube       the Kubernetes types that the code fills in, with the fields that it uses.
--   Api        `api/v1alpha1/nfsprovisioner_types.go`, as values.
--   Scheme     `api/v1alpha1/groupversion_info.go` and the registration of the types, over the record
--              `SchemeLibrary` of what the libraries' schemes and builders do.
--   DeepCopy   `api/v1alpha1/zz_generated.deepcopy.go`: `Types` has the structs as they lie in memory,
--              with addresses for pointers, maps and slices, `Heap` the heap and the commands on it,
--              `Image`, `Spec`, `Status` and `Provisioner` the functions. `Views` says for which value
--              of `Api` a struct in a heap stands, `Fresh` is about commands whose result is new, and
--              `Separation` and `Laws` have what the copies do.
--   Defaults   `controllers/defaults/defaults.go`.
--   Cluster    what the operator calls and does not implement, as a parameter: the record
--              `Platform` of the client's methods and the library's helpers; `Laws`, what is
--              relied on; `Growth`, how a cluster may grow; `Answers`, a cluster in which no call
--              fails from outside; and `Memory`, a cluster in memory that meets all of it.
--   Resources  `controllers/resources`: `Common` and `Manager` (common.go, manager.go), and `Scc`,
--              `Pvc`, `ServiceAccount`, `Rbac`, `Deployment`, `Service` and `StorageClass`
--              (scc.go, pvc.go, serviceaccount.go, rbac.go, deployment.go, service.go,
--              storageclass.go). `GetOrCreate` is the specification that a manager implements,
--              `Ensure` what it promises, `Refinement`, `Refs` and `Promises` relate the code to
--              them. `Plan` has the managers as one list of such steps, `Origin` where each object of
--              the cluster comes from, and `Works` what has to hold between the objects of the
--              cluster. `All`, `Agreement`, `Settles`, `Skips`, `Success`, `Storage`, `Succeed`,
--              `Panics`, `Loop`, `Consistency` and `Ownership` are about the managers together.
--   Controller `controllers/nfsprovisioner_controller.go`: `Validate` (`validate`), `Strings`
--              (`containsString`, `removeString`), `Cleanup` (`deleteExternalResources`),
--              `Reconcile` (`Reconcile`, with `report_invalid`, `register` and `finalize` for its
--              three endings), `Permissions` (the markers above `Reconcile`, and a client that refuses
--              the calls that they do not ask for), and the theorems on them: on one run, on many
--              runs (`History`, `Listing`, `Provenance`), on runs among the writes of others
--              (`Marked`, `Lifecycle`), and on resources of two namespaces (`Sharing`, `Isolation`).
--   Main       `cmd/main.go`: `init`, over `Scheme`, and `main`, over the record `Runtime` of what
--              controller-runtime does, with the controller's `SetupWithManager`. Both work on the
--              package variable `scheme`, and `program` is the one after the other.
--   Examples   runs on the cluster in memory.
--
-- How the code corresponds. A method with a context and a receiver is a function of the platform
-- `P`; `err != nil` followed by `return err` is the bind of `Exec`; a read whose error the code
-- looks at is `ask`, with a reply that is an object or an error. A nil map or pointer is `none`.
-- What is logged is left out. `SetControllerReference` changes the metadata and its error is
-- dropped, as the code does. `resource.MustParse` is a partial function whose missing value is a
-- panic.
--
-- The cluster. A state of the platform has a view: for each kind and name the object that is
-- stored, or none. The laws say how the client's calls act on the view; of an object
-- that is sent, the server keeps what `Stored` lists; of a custom resource that is the spec up to
-- `served`, since JSON drops an empty map and the definition's defaults stand for image settings
-- that are missing; an object that is being deleted goes when its last finalizer does; a write that fails changes nothing; and no one else
-- writes during a run. They take the client's reads to be up to date, cached as they are, and they
-- do not say that a call succeeds.
--
-- The heap. An address is a number and holds a cell of one Go type. `*out = *in` and the writes
-- after it make a `DeepCopyInto` a command from the value of `in` to the value that it leaves in
-- `out`; `out` is not `in`, as in every call of the code. A map is copied in the order in which its
-- entries are listed, and a slice is its elements. `DeepCopyInto` of the library's metadata is a
-- parameter with the hypothesis that it is a deep copy.
--
-- Bounds. All loops of the code are over finite lists, and so are structural recursions here: no
-- fuel is used.
--
-- Not modelled: the parsing of the command line and what is logged; `builder`, a copy of helpers of
-- another project that no code of the operator calls; the vendored libraries, which are the
-- parameters; tests, manifests and scripts.
pub mod Base
pub mod Kube
pub mod Api
pub mod DeepCopy
pub mod Defaults
pub mod Cluster
pub mod Resources
pub mod Controller
pub mod Scheme
pub mod Main
pub mod Examples
