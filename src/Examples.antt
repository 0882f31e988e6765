-- ===== src/Examples.antt =====
-- The theorems at concrete inputs, a file for each part of the program, and tests.
mod Data
mod Machine
mod Proposals
mod Evaluations
mod Deliveries
mod Pairings
mod Incidents
mod Agents
mod Locals
mod Accounts
mod Prunings
mod Requests
mod Events
mod Probes
