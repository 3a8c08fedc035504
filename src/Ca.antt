-- ===== src/Ca.antt =====
-- src/ca: the host side of DVB-CI (EN 50221).
pub mod Asn1
pub mod Tpdu
pub mod ResourceId
pub mod Spdu
pub mod Apdu
pub mod Device
pub mod Transport
pub mod Capmt
pub mod ConditionalAccess
pub mod Session
pub mod Resource
pub mod Pacer
pub mod Host
pub mod Controller
