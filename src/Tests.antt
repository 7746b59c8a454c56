-- ===== src/Tests.antt =====
-- Runs of the model at concrete inputs, and each property at one of them.
pub mod Data
mod Coordinator
mod Copies
mod Directory
mod Elections
mod Healths
mod Logs
mod Searches
mod Services
mod Matches
mod Texts
mod Uploads
