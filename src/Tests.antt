-- ===== src/Tests.antt =====
-- Runs of the definitions on small inputs, and the theorems at inputs that meet their hypotheses.
mod Scheduling
mod Jobs
mod Table
mod Formations
mod Auth
mod Routes
mod Subscriptions
mod Apps
mod Ids
mod Releases
mod Artifacts
mod Keys
mod Statements
mod Resources
mod Applications
mod Protecting
mod Client
mod Log
mod Rpc
mod Providers
mod Deploying
mod Steps
mod Notifying
