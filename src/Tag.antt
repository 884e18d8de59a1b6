-- ===== src/Tag.antt =====
-- t2t_emu.rs: the emulated Type 2 tag.
pub mod Memory
pub mod Commands
pub mod States
