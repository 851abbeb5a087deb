-- ===== src/Memory.antt =====
-- Physical memory: the frame allocator of src/0x01/pkg/kernel/src/memory/frames.rs.
pub mod Frames
