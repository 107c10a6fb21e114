-- ===== src/Api.antt =====
-- frontend/src/lib/api.js: the browser's client of the API.
pub mod Json
pub mod World
mod Silent
pub mod Inversion
pub mod Request
pub mod Reads
pub mod Mutations
pub mod Upload
pub mod Queue
