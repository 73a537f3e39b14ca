-- ===== src/Native.antt =====
-- The native LSM store: include/lsmio/manager/store/native and lib/manager/store/native.
pub mod Memtable
pub mod FilePool
pub mod FileCloser
pub mod Sstable
pub mod Store
