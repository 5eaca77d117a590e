-- ===== src/Calls.antt =====
-- src/interp/stackmanager.c: the frames of methods that are called, and their arguments; and the
-- method descriptors that say how many words these take.
pub mod Defs
pub mod Copy
pub mod Passing
pub mod Descriptor
