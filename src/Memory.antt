-- ===== src/Memory.antt =====
-- kernel/src/memory and kernel/src/process/heap.rs: pages, and the two bitmaps of pages.
pub mod Page
pub mod Bitmap
pub mod Frames
pub mod Heap
mod Tests
