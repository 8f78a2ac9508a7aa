-- ===== src/Tests.antt =====
-- Runs of the modelled code, and the theorems at concrete inputs.
mod Ring
mod Packets
mod Frames
mod Stack
mod Pool
mod Hash
mod Queues
mod Sessions
mod Boards
mod Paths
mod Texts
mod Trees
