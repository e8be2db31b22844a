-- ===== src/Tests.antt =====
-- Concrete runs of the models, and the theorems at concrete inputs.
mod Codecs
mod Transactions
mod Stores
mod Objects
mod Endings
mod Machines
mod Locks
mod Caches
mod Messages
mod Connections
mod Hosted
