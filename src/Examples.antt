-- ===== src/Examples.antt =====
-- Concrete states, and the theorems applied to them.
mod Data
mod Machines
mod Cores
mod Launchers
mod Monitors
mod Requests
mod Restarts
mod Services
mod Stored
mod Administration
