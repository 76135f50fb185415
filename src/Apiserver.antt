-- ===== src/Apiserver.antt =====
-- pkg/apiserver: the server between the workload cluster and the workspaces.
pub mod Request
pub mod Breaker
pub mod Transport
pub mod Router
pub mod Credentials
pub mod Documents
pub mod Leader
pub mod ClusterApis
pub mod Registrar
pub mod Manager
pub mod AdmissionMatch
pub mod OwnerRefs
pub mod Paths
pub mod Backend
pub mod Gate
pub mod Mirror
pub mod Proxy
pub mod Handler
pub mod Conversion
pub mod Client
