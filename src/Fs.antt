-- ===== src/Fs.antt =====
-- TécnicoFS, the file system under fs/.
pub mod Types
pub mod Access
pub mod Blocks
pub mod Directory
pub mod Inodes
pub mod OpenFiles
pub mod Operations
pub mod Scan
pub mod Valid
pub mod Handles
pub mod BlockLaws
pub mod Write
pub mod Read
pub mod Lookup
pub mod DirBlock
pub mod Unlink
pub mod Sound
pub mod Calls
pub mod Init
pub mod Close
pub mod RoundTrip
pub mod Open
pub mod Samples
mod Tests
mod OpenTests
