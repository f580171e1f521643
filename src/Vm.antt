-- ===== src/Vm.antt =====
-- src/lib_chromatron/vm_core.c, as it is built for the ESP8266 (src/chromatron_wifi/src/vm_config.h):
-- the interpreter of compiled FX scripts.
pub mod Types
pub mod Cpu
pub mod Opcodes
pub mod Labels
pub mod Calls
pub mod Dispatch
pub mod Stream
pub mod Image
pub mod Load
pub mod Eval
mod Tests
