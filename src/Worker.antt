-- ===== src/Worker.antt =====
-- services/worker/src: the background worker. Its job queue, the manager that runs the jobs, the
-- job types, and the HTTP service in front of it.
pub mod Queue
pub mod Manager
pub mod Jobs
pub mod Rooms
pub mod Server
pub mod Shutdown
pub mod Json
pub mod Results
pub mod Auth
pub mod Bounded
pub mod RateLimit
