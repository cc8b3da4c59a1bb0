-- ===== src/Examples.antt =====
-- Concrete inputs, and the theorems applied to them.
mod Fixed
mod Town
mod Geography
mod Economy
mod Trading
mod Monitoring
mod Caravans
mod Politics
mod Requests
mod Calendar
mod Roads
mod Stewardship
mod Truces
mod Succession
mod Completions
mod Raids
mod Guilds
mod Seekers
