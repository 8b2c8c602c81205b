-- ===== src/Tests.antt =====
-- Concrete inputs: one database, requests and names, and the theorems at some of them.
mod Data
mod Recording
mod Access
mod Names
mod Pipelines
mod Challenges
mod Api
mod Integrity
mod Listing
mod Client
mod Migrations
mod Lifecycle
mod Starting
mod Run
mod Configs
