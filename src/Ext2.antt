-- ===== src/Ext2.antt =====
-- project3: the mini-ext2 file system.
pub mod Bytes
pub mod State
pub mod Text
pub mod Dev
pub mod Bitmap
pub mod Inode
pub mod Dir
pub mod Map
pub mod Open
pub mod Io
pub mod Accounts
pub mod Security
pub mod Format
pub mod Listing
pub mod Command
mod Tests
