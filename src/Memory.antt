-- ===== src/Memory.antt =====
-- memory.c and memory.h: kernel pages, page tables and the kernel heap.
pub mod Page
pub mod Machine
pub mod Pool
pub mod Table
pub mod Range
pub mod Kernel
pub mod Heap
pub mod Copy
mod Tests
