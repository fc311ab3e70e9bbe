-- ===== src/Tests.antt =====
-- Instances of the theorems at concrete inputs, and runs of the definitions.
mod Samples
mod Scim
mod Sync
mod Acl
mod Chunking
mod Connectors
mod Documents
mod Expand
mod Gateway
mod Graph
mod Identity
mod Live
mod Reader
mod Search
mod Session
mod Signals
mod Store
