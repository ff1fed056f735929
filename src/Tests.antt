-- ===== src/Tests.antt =====
-- The theorems at concrete inputs.
mod Store
mod Ring
mod Probes
mod Nodes
mod Frames
mod Timers
mod Engines
mod Mailboxes
mod Clocks
mod States
mod Errors
mod Roots
mod Forwards
mod Sqlite
mod Connections
mod Contexts
mod Configs
mod Migrations
mod Reminders
mod SqliteMembers
