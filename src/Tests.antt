-- ===== src/Tests.antt =====
-- Tests and instances of the theorems at concrete inputs, for the shell and the scheduler.
mod Lexing
mod Jobs
mod Commands
mod Builtins
mod Visits
mod Session
mod Copying
mod Listing
mod Tracing
mod Kernel
