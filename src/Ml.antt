-- ===== src/Ml.antt =====
-- ml/: the models that a process keeps of the parameters, and the workers in front of them.
mod Examples
pub mod ChunkBasedModel
pub mod Batch
pub mod PsWorker
pub mod PsMapNoneWorker
pub mod PsMapChunkWorker
