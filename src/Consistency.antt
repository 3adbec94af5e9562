-- ===== src/Consistency.antt =====
-- ml/consistency/: the controllers that hold back the threads of one process.
pub mod BspController
pub mod SspController
mod Examples
