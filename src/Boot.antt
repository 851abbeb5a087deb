-- ===== src/Boot.antt =====
-- The boot loader, src/0x01/pkg/boot/src.
pub mod Config
pub mod Settings
