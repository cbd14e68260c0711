-- ===== src/Machinery.antt =====
-- pkg/ipammachinery: the Kubernetes client of the custom resource.
pub mod Client
pub mod Informers
pub mod Setup
pub mod Made
pub mod Lifecycle
pub mod Crd
