-- ===== src/Persist.antt =====
-- infrastructure/nomad/scripts/persist.py and infrastructure/code/persist.py: the workers that store
-- the results in the database.
pub mod Setup
pub mod Uuid
pub mod Parse
pub mod Batch
pub mod Store
pub mod Worker
pub mod Pool
pub mod Older
