-- ===== src/Examples.antt =====
-- The theorems at concrete inputs.
mod Ring
mod Streams
mod Addresses
mod Records
mod Answers
mod Requests
mod Connections
mod Commands
mod Queries
mod Pushes
mod Loggers
mod Reloads
mod Listings
mod Routing
mod Runs
mod Updates
mod Links
