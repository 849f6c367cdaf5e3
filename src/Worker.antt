-- ===== src/Worker.antt =====
-- worker/: persistence of results and the dispatcher of messages.
pub mod World
pub mod Persistence
pub mod Dispatcher
pub mod Startup
