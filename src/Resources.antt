-- ===== src/Resources.antt =====
-- controllers/resources: a manager for each kind of object that the operator keeps in the cluster.
pub mod Common
pub mod Ensure
pub mod GetOrCreate
pub mod Refinement
pub mod Refs
pub mod Promises
pub mod Origin
pub mod Works
pub mod Plan
pub mod All
pub mod Settles
pub mod Agreement
pub mod ServiceAccount
pub mod StorageClass
pub mod Service
pub mod Pvc
pub mod Scc
pub mod Deployment
pub mod Rbac
pub mod Manager
pub mod Loop
pub mod Success
pub mod Skips
pub mod Storage
pub mod Succeed
pub mod Consistency
pub mod Ownership
pub mod Panics
