-- ===== src/Strings.antt =====
-- src/kernel/utils/string.c
pub mod Memory
pub mod Read
pub mod Texts
pub mod Moves
