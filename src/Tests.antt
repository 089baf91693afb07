-- ===== src/Tests.antt =====
-- The theorems at concrete inputs, one module for each part of the code.
pub mod Packets
pub mod Queries
pub mod Clock
pub mod Records
pub mod Servers
pub mod Selecting
pub mod Choosing
pub mod States
pub mod Counting
pub mod Rounds
pub mod Services
pub mod Starting
pub mod Serving
