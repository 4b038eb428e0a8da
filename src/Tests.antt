-- ===== src/Tests.antt =====
-- The theorems at concrete inputs, and runs of the definitions.
mod Texts
mod Queues
mod Sorting
mod Parsing
mod System
mod Polling
mod Logs
mod Messages
mod Starts
mod Cycles
mod Modules
mod Opening
mod Processes
