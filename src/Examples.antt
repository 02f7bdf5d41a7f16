-- ===== src/Examples.antt =====
-- Runs of the programs under cmd/ at concrete inputs: tests, and the theorems at inputs where their
-- hypotheses hold.
mod Strings
mod Scripts
mod Ports
mod Programs
mod Runs
mod Server
mod Starting
mod Locking
mod Listening
mod Running
mod Watching
mod Remotes
mod Filters
