-- ===== src/Ecmd.antt =====
-- The command interface: the results of commands, aliases, the parser and its transports.
pub mod Result
pub mod Alias
pub mod Parser
pub mod Net
pub mod Usart
mod Tests
