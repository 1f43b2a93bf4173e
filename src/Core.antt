-- ===== src/Core.antt =====
-- core/: buffers and their sharing, timers, the poller and the schedulers.
pub mod Buffer
pub mod Sharing
pub mod Timer
pub mod Poller
pub mod Scheduler
pub mod Stream
pub mod Connection
pub mod PollIn
pub mod Stages
pub mod Response
pub mod Request
pub mod Controller
