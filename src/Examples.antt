-- ===== src/Examples.antt =====
-- Runs of the models on concrete inputs, and the properties applied to them.
mod Millis
mod BruteForceRuns
mod WorkerRuns
mod ApiRuns
mod CrmRuns
mod OlagsaRuns
mod CoreRuns
pub mod RealtimeRuns
pub mod UploadRuns
