-- ===== src/Ocp.antt =====
-- internal/ocp/clients.go: the releases, the channels and the manifests of the OpenShift clients.
pub mod Semver
pub mod Releases
pub mod Tracks
pub mod Manifest
mod Examples
