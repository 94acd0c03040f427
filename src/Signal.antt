-- ===== src/Signal.antt =====
-- kernel/task_signal.c: the default dispositions, posting a signal, taking one on the way back to
-- user space, the return from a handler and the system call that installs one.
pub mod Sig
pub mod Table
pub mod WellFormed
pub mod Post
pub mod Process
pub mod Handler
pub mod Reach
mod Tests
