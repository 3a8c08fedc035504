-- ===== src/Ca/Resource.antt =====
-- src/ca/resource: the resources that the host offers to modules, and their registry.
pub mod Table
pub mod Context
pub mod Rm
pub mod ApplicationInfo
pub mod HostControl
pub mod DateTime
pub mod Mmi
pub mod Registry
