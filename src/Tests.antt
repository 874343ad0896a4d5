-- ===== src/Tests.antt =====
-- Runs of the models at concrete inputs.
mod Samples
mod Wire
mod Handles
mod Caches
mod Descriptors
mod Requests
mod Commands
mod Listings
mod Exporting
mod Procedures
