-- ===== src/Tests.antt =====
-- Concrete runs: a host that counts clock readings over the mock backend, and every theorem with a
-- hypothesis applied to a bunker that meets it.
mod Fixtures
mod Runs
mod Bunkers
mod Managers
mod Inspections
mod Stores
mod Resources
mod Hosts
mod Reaping
mod Packages
mod Evidence
mod Agents
mod Controls
mod Requests
mod Restores
mod Hypervisors
mod Devices
