-- ===== src/Api.antt =====
-- api/generation: the requests that create, save and delete generations and keys.
pub mod World
pub mod Env
pub mod Upload
pub mod UploadShape
pub mod Start
pub mod FromCrm
pub mod Keys
