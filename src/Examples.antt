-- ===== src/Examples.antt =====
-- Concrete runs of the theorems.
mod Data
mod Logs
mod Stores
mod Restarts
mod Snapshots
mod Threads
mod Boots
mod Servers
mod Pings
mod Gossips
mod Nodes
mod Lists
mod Agreements
