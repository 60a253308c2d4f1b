-- ===== src/Cache.antt =====
-- SecKeyShm.cpp and SeckKeyNodeInfo.h: the session keys that are cached in shared memory. The
-- segment is the list of its `m_maxNode` slots. A char array of a node is the C string that it
-- holds: the nodes are built over zeroed arrays, so the rest of the array is zero. Whether
-- `mapShm` attached the segment is the argument `attached`.
pub mod Slots
pub mod Reads
pub mod Unique
pub use Slots.{Node, zero_node, holds, is_zero}
unfoldable pub use Slots.{shm_init, shm_write, shm_read, shm_update_status}
