-- ===== src/Resource.antt =====
-- internal/resource: the service instances, the hosts and the manager.
pub mod Instance
pub mod Host
pub mod Manager
mod Examples
