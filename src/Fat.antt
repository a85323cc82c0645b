-- ===== src/Fat.antt =====
-- mizu/lib/afat32/src: the FAT32 file system's table of clusters, and its dates.
pub mod Date
pub mod Time
pub mod Entry
pub mod Table
pub mod Search
pub mod Chain
pub mod Volume
pub mod File
pub mod Dirent
mod Memory
mod Tests
