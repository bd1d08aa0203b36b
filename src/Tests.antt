-- ===== src/Tests.antt =====
-- Each theorem at concrete inputs.
mod Tasks
mod Leases
mod Breakers
mod Budget
mod Installers
mod Queue
mod Fetching
mod Graphs
mod Disks
mod Buses
mod Approvals
mod LoadOrders
mod Networks
mod Modlists
mod Whitelists
mod Pipelines
mod Syncing
