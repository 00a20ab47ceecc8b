-- ===== src/Tests.antt =====
-- Concrete states, and the theorems at them.
mod Frames
mod Tables
mod Locks
mod Queues
mod Areas
mod Devices
