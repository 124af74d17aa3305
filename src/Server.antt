-- ===== src/Server.antt =====
-- include/Server.hpp and src/Server.cpp: the state, the sending of messages, the end of a client,
-- and the loop.
pub mod State
pub mod Keeps
pub mod Effects
pub mod Errors
pub mod Net
pub mod Output
pub mod Teardown
pub mod Loop
pub mod Turning
pub mod Capacity
pub mod Registration
pub mod Ordered
pub mod Startup
pub mod Legacy
pub mod Shutdown
pub mod Leaving
pub mod Distinct
pub mod Members
pub mod Laws
pub mod Staying
pub mod Occupied
pub mod Objects
