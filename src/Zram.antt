-- ===== src/Zram.antt =====
-- kernel/core/zram.c.
pub mod Codec
pub mod Pool
