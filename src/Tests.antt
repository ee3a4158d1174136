-- ===== src/Tests.antt =====
-- Runs at concrete inputs, and the theorems applied at them.
mod Data
mod Planning
mod Restoring
mod Running
mod Configuring
mod Whole
mod Completing
mod Chunking
mod Coding
mod Real
mod Sending
mod Sudoing
mod Ending
mod Storing
mod Reporting
mod RestoreWhole
