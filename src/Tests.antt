-- ===== src/Tests.antt =====
-- The theorems at concrete inputs, with small instances of the parameters.
mod Samples
mod Crypto
mod Storage
mod Directory
mod Restore
mod Queue
mod Stored
mod Recursive
mod Pool
mod Finished
mod Indices
mod Objects
mod Splits
mod Meta
mod Reopened
mod Frames
mod RoundTrip
mod Tool
