-- ===== src/Orchestration.antt =====
-- pkg/orchestration/kuberntes.go: events become requests, and responses become the resource's status.
pub mod Resource
pub mod Response
pub mod Updates
pub mod Entries
pub mod Cluster
pub mod Nils
pub mod Pointers
pub mod Refused
pub mod Mapped
pub mod Memory
