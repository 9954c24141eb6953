-- ===== src/Tests.antt =====
-- The theorems at concrete inputs, and runs of the program's functions.
mod Wire
mod Commands
mod Sessions
mod Proxy
mod Greetings
mod Bridges
mod Histories
mod Requests
mod Admission
mod Setting
mod Refinements
mod Devices
mod Configs
mod Programs
mod Keepalives
mod Passages
