-- ===== src/Io.antt =====
-- Keys, consoles and file descriptors, src/0x01/pkg/kernel/src/drivers/input.rs and utils/resource.rs.
pub mod Input
pub mod Resources
pub mod Serial
pub mod Uart
