-- ===== src/Tests.antt =====
-- The library's theorems at concrete inputs.
mod Client
mod Edge
mod Batch
mod Uploads
mod Pages
mod Reviews
mod Viewer
mod Accounts
