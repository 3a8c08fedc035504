-- ===== src/Fe.antt =====
-- src/fe: the frontend.
pub mod Sec
pub mod Sys
pub mod Property
pub mod Tune
