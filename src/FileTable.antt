-- ===== src/FileTable.antt =====
-- kern/syscall/file_syscalls.c: open, read, write, close, lseek and dup2 on the open files of the
-- current process; the copy and the release of a file table in kern/proc/proc.c.
-- A `struct file_handler` lives in the heap `handlers`, and a file table holds its address. The
-- handler's lock is taken and released inside each operation and is not part of the state.
-- Access to a freed handler is undefined behaviour and ends the run.
mod Defs
mod Calls
pub mod Counted
pub mod Seek
pub mod Sharing
pub mod Closing
pub mod Opening
pub mod Forking
mod Tests
unfoldable pub use Defs.*
unfoldable pub use Calls.*
