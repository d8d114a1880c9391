-- ===== src/Shell.antt =====
-- The shell, c-shell/src: its parts by what they do.
pub mod Token
pub mod Lexer
pub mod Parser
pub mod Jobs
pub mod Commands
pub mod Search
pub mod Builtins
pub mod Decimal
pub mod Hop
pub mod Execute
pub mod Peek
pub mod Reveal
pub mod Snoop
pub mod Spy
pub mod Main
