-- ===== src/Tests.antt =====
-- Concrete runs of the components.
mod Data
mod Stores
mod Registrations
mod Records
mod Access
mod Feeds
mod Resolution
mod JsonSchemas
mod JsonVerdicts
mod Protobuf
mod Elections
