-- ===== src/Examples.antt =====
-- The theorems at concrete inputs, for each part of the program.
mod Contests
mod Accounts
mod Judging
mod Nodes
mod Reveals
mod Servers
mod Imports
mod Spaces
