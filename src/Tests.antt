-- ===== src/Tests.antt =====
-- The theorems at concrete inputs.
pub mod Samples
mod Logins
mod Detections
mod Runs
mod Wire
mod Enrollments
mod Requests
