-- ===== src/Cmd.antt =====
-- include/Cmd.hpp and src/Cmd/: the commands, a file for each group, and their dispatch.
pub mod Context
pub mod Split
pub mod Register
pub mod Join
pub mod Part
pub mod Invite
pub mod Topic
pub mod Mode
pub mod Privmsg
pub mod Dispatch
pub mod Frame
pub mod Proper
pub mod Errors
pub mod Guards
pub mod Admission
pub mod Authority
pub mod Members
