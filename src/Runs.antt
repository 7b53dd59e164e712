-- ===== src/Runs.antt =====
-- Runs of the modelled code on concrete inputs.
mod Pools
mod Paths
mod Index
mod Wire
mod Packs
mod Documents
mod Commits
mod Identity
mod Lookups
mod Remotes
mod Trees
mod Collisions
