-- ===== src/Examples.antt =====
-- Runs of the modelled code on concrete tables.
mod Rows
mod Sync
mod Commits
mod Resyncs
mod Executions
mod Deliveries
mod Creations
mod Histories
mod Projections
mod Replays
mod Passes
mod Messages
mod Listings
mod Connections
mod Subscriptions
mod Pushes
