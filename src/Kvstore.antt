-- ===== src/Kvstore.antt =====
-- kvstore/: the parameter server.
pub mod Messages
pub mod Ranges
pub mod RangeManager
pub mod Handles
pub mod KvWorker
pub mod Buffers
pub mod Answers
pub mod SspServer
pub mod BspServer
pub mod DefaultServer
mod Examples
