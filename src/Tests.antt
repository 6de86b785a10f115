-- ===== src/Tests.antt =====
-- The theorems at concrete inputs.
mod Rings
mod Frames
mod Messages
mod Streams
mod Conns
mod Sessions
mod Rtps
mod Https
mod Loops
mod Rtsps
mod Flvs
mod Files
