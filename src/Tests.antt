-- ===== src/Tests.antt =====
-- Concrete inputs: the witnesses of the theorems and runs of the definitions.
mod Floats
mod Tenants
mod MockRuns
mod Queries
mod Chunks
mod Events
mod Stores
mod Trees
mod Watches
mod Hosts
mod Lifecycles
mod Ingests
mod Interrupted
mod Crashes
mod Twins
mod Threads
mod Embeds
mod Bridges
