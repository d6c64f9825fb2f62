-- ===== src/Tests.antt =====
-- The theorems on concrete inputs.
mod Paths
mod Uevents
mod Intervals
mod Strbufs
mod Members
mod Strings
mod Tables
mod Groups
mod Recoveries
mod Runners
mod Vectors
mod Blacklists
mod Checkers
mod Checks
mod Aliases
mod Actions
