-- ===== src/Tests.antt =====
-- The theorems at concrete inputs, one module for each part of the program.
pub mod Tables
pub mod Routing
pub mod Frames
pub mod EndToEnd
pub mod Hello
pub mod Startup
pub mod Listener
pub mod Http
pub mod Tunnelled
pub mod Certificates
pub mod Lifecycle
pub mod Commands
