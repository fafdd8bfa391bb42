-- ===== src/Examples.antt =====
-- The theorems at concrete inputs, and runs of the definitions.
pub mod Machines
pub mod Times
pub mod Inboxes
pub mod Graphs
pub mod Rights
pub mod Limits
pub mod Chains
pub mod Trees
pub mod Taxonomies
pub mod Topologies
pub mod Migrations
pub mod Recoveries
pub mod Clients
