-- ===== src/MyShell.antt =====
-- myshell/myshell.c: a shell that cuts a line into the commands of a pipeline. Its parsers write
-- NUL bytes into the line buffer and keep pointers into it; here a pointer is an offset.
pub mod Parse
pub mod Strings
pub mod Commands
pub mod Arguments
pub mod Argv
pub mod Redirection
pub mod Run
pub mod Wiring
pub mod Pipeline
pub mod Rounds
pub mod Waits
pub mod Prompt
pub mod Terminated
pub mod Plain
pub mod Fits
pub mod Lines
pub mod Sessions
mod Tests
mod Pipes
