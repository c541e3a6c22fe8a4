-- ===== src/Controller.antt =====
-- controllers/nfsprovisioner_controller.go: the reconciler of the custom resource.
pub mod Validate
pub mod Strings
pub mod Cleanup
pub mod Reconcile
pub mod Validity
pub mod StringLaws
pub mod CleanupLaws
pub mod Steps
pub mod Live
pub mod Works
pub mod Finalize
pub mod Deletion
pub mod Failed
pub mod Panics
pub mod Success
pub mod Settle
pub mod Frame
pub mod History
pub mod Listing
pub mod Provenance
pub mod Permissions
pub mod Marked
pub mod Lifecycle
pub mod Sharing
pub mod Isolation
