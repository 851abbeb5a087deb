-- ===== src/Apic.antt =====
-- The interrupt controllers, src/0x01/pkg/kernel/src/interrupt/apic. A controller's registers keep
-- what is written to them: what the hardware itself changes in them is left out.
pub mod IoApic
pub mod XApic
