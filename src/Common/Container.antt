-- ===== src/Common/Container.antt =====
-- The containers of common/include/common/container, with identifiers for their elements and keys.
pub mod Set
pub mod Map
