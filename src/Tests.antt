-- ===== src/Tests.antt =====
-- Runs of the model, and the theorems at concrete inputs.
mod Setup
mod Batches
mod Stores
mod Pages
mod Retrying
mod Configs
mod Keys
mod Agents
mod Postgres
mod Databases
mod Pipelines
mod KeyFiles
mod Sources
mod Logs
mod Routes
mod Analyzers
mod Servers
