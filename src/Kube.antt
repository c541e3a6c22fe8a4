-- ===== src/Kube.antt =====
-- The records of the Kubernetes and OpenShift API libraries, with the fields that the operator sets
-- or reads. A field that the code leaves out holds its zero value.
pub mod Meta
pub mod Core
pub mod Apps
pub mod Rbac
pub mod Storage
pub mod Security
