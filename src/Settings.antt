-- ===== src/Settings.antt =====
-- common_src/settings.c and settings.h: the settings, the coordinate data, the startup lines and the
-- build info in the flash memory. `Storage` has the records in flash and `Global` the values that a
-- `$` command sets; the theorems are in the other children.
pub mod Storage
pub mod Exchange
pub mod Coord
pub mod Global
pub mod Stored
pub mod Outcome
