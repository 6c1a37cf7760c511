-- ===== src/Server.antt =====
-- server/server.h and server/server.cpp: the UDP command server. The state and the socket calls,
-- the file transfers, the command handlers and the main loop each have a module; the others hold
-- what is proved of them.
pub mod State
pub mod Transfer
pub mod Handlers
pub mod Loop
pub mod Keeps
pub mod Walk
pub mod Frames
pub mod Confinement
pub mod Removal
pub mod Renaming
pub mod Uploads
pub mod Streams
pub mod Answers
pub mod Overwrites
pub mod Lifecycle
pub mod Late
pub mod Dashboard
pub mod Fixture
pub mod Tests
pub mod UploadTests
