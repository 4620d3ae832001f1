-- ===== src/Tests.antt =====
-- Tests and concrete instances for the theorems of the other files.
mod Hashing
mod Trees
mod Claims
mod Drops
mod Pools
mod Scripts
mod Workers
mod Vault
mod Timelocks
