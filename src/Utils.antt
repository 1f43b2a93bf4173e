-- ===== src/Utils.antt =====
-- utils/: the data structures and the text functions that the other parts use.
pub mod Compare
pub mod FdMap
pub mod NodeList
pub mod MemPool
