-- ===== src/Artifacts.antt =====
-- packages/artifact_store: JSON artifacts in files, each in the scope of a user and a project.
pub mod Store
pub mod Paths
pub mod RoundTrip
pub mod Others
pub mod Codec
mod Examples
