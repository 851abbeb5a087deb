-- ===== src/App.antt =====
-- User programs of src/0x01/pkg/app.
pub mod Factorial
pub mod Dinner
pub mod Dining
pub mod Deadlock
pub mod Messages
pub mod Counter
