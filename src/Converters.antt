-- ===== src/Converters.antt =====
-- src/common/src/converters.cpp
pub mod Json
pub mod Fields
pub mod RoundTrip
pub mod Requests
pub mod Tasks
