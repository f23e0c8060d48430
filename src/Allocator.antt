-- ===== src/Allocator.antt =====
-- Dynamic Memory Allocator: the simulated break of memlib.c, the allocator mm.c and the baseline
-- mm-naive.c.
pub mod Room
pub mod Fits
pub mod Memlib
pub mod Blocks
pub mod State
pub mod Lists
pub mod Moves
pub mod Malloc
pub mod Check
pub mod Links
pub mod Pushed
pub mod Removed
pub mod Unlisted
pub mod Heap
pub mod Naive
pub mod Break
pub mod Sizes
pub mod Headers
mod Samples
mod Runs
mod Tests
