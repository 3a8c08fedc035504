-- ===== src/Ca/ResourceId.antt =====
-- src/ca/resource/mod.rs: resource identifiers. One is the number that `ResourceId` wraps.
use libdvb.Prelude.{ℕ, bit_and, shr, u8}

abbrev pub ResourceId : Type 0
ResourceId = ℕ

abbrev pub resource_manager : ResourceId
resource_manager = 0x0001_0041

abbrev pub application_information : ResourceId
application_information = 0x0002_0041

abbrev pub conditional_access_support : ResourceId
conditional_access_support = 0x0003_0041

abbrev pub host_control : ResourceId
host_control = 0x0020_0041

abbrev pub date_time : ResourceId
date_time = 0x0024_0041

abbrev pub mmi : ResourceId
mmi = 0x0040_0041

-- Class and type, with the version bits masked out.
abbrev pub base : ResourceId → ℕ
base raw = shr raw 6

abbrev pub version : ResourceId → ℕ
version raw = u8 (bit_and raw 0x3F)
