-- ===== src/Interrupts.antt =====
-- src/interrupts.h and src/interrupts.c.
pub mod Level
pub mod Irq
