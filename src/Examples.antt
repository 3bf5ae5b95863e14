-- ===== src/Examples.antt =====
-- Tests of the definitions on concrete devices and files, and examples of the theorems.
pub mod Sample
pub mod Device
pub mod File
mod Fs
mod Writing
