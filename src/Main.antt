-- ===== src/Main.antt =====
-- src/main.c: the command line, the control of a universe, and the hand-over of keys and frames
-- between the thread that owns the windows and the controllers.
pub mod Options
pub mod Ranges
pub mod Universe
pub mod Queue
pub mod Keys
pub mod Frames
pub mod Showing
pub mod Seed
pub mod Confetti
pub mod Census
pub mod Populate
pub mod Seeded
pub mod Fresh
pub mod Draw
pub mod Control
pub mod Draining
pub mod Ending
pub mod Stopping
pub mod Startup
pub mod Ready
pub mod Opening
pub mod Events
