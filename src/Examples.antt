-- ===== src/Examples.antt =====
-- Concrete runs on the cluster in memory, at which the theorems of the other modules are applied.
pub mod Data
mod Runs
mod Firsts
pub mod Endings
pub mod Deletions
pub mod Managers
pub mod Builders
pub mod Types
pub mod Starts
mod Permissions
mod Courses
mod Neighbours
