-- ===== src/Tests.antt =====
mod TomlRuns
mod Samples
mod NetWitnesses
mod SettingsWitnesses
mod ClientWitnesses
mod RendererWitnesses
mod SiteWitnesses
mod ViewWitnesses
