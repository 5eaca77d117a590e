-- ===== src/Tests.antt =====
-- Runs of the model at concrete frames, and the theorems at concrete inputs.
mod Frames
mod Longs
mod Moves
mod Jumps
mod Ints
mod Calls
mod Switches
mod Casts
mod Arrays
mod Fields
mod Classes
mod Lists
mod Hashes
