-- ===== src/Tool.antt =====
-- What the command line tool does with packets and bytes: twinleaf-tools/src/bin/tio-tool.rs.
pub mod Log
pub mod Firmware
mod Tests
