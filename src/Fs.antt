-- ===== src/Fs.antt =====
-- The virtual file system of kernel/src/fs, for the current task.
pub mod Kernel
pub mod Blocks
pub mod Fd
pub mod Ramfs
pub mod Fifofs
pub mod Stdio
pub mod Creat
pub mod Vfs
pub mod Fcntl
pub mod Valid
mod Tests
