-- ===== src/Repo.antt =====
-- repo/: the repository, its packs and its working directory.
pub mod Gc
pub mod Policy
pub mod Id
pub mod Pack
pub mod Lookup
pub mod Redundant
pub mod Remote
pub mod Symlink
pub mod Diff
pub mod Clean
pub mod Cleanup
pub mod Ancestors
pub mod Collisions
