-- ===== src/Lsm.antt =====
-- lsm/src/lib.rs: the storage engine, a log structured merge tree.
pub mod PageBlock
pub mod BlockList
pub mod Space
pub mod Bcmp
pub mod KeyRef
pub mod Cursor
pub mod MultiCursor
pub mod LivingCursor
pub mod RangeCursor
pub mod PrefixCursor
pub mod Sizes
