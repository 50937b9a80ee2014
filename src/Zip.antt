-- ===== src/Zip.antt =====
-- zipfuse: a read-only file system over a zip archive. Inode is the table of inodes that is built
-- from the archive, FileSystem the FUSE handlers over it.
pub mod Inode
pub mod FileSystem
