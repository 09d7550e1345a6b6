-- ===== src/Vfs.antt =====
-- core/vfs: files inlined into the flash, the table of file modules, and the copy of a file.
pub mod Inline
pub mod Dispatch
pub mod Copy
pub mod Crc
pub mod Opened
pub mod File
pub mod Seek
pub mod Calls
mod Tests
mod ModuleTests
