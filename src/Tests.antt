-- ===== src/Tests.antt =====
-- Runs of the definitions on concrete inputs, and the theorems applied to them.
mod Fixed
mod Natural
mod Speeds
mod Steps
mod Storage
mod Port
mod Text
mod SoftLimits
mod Realtime
mod Motion
mod Parser
mod Dollar
mod Buffered
mod Arcs
