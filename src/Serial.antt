-- ===== src/Serial.antt =====
-- cmd/serial_expect/main.go: scripts of send, expect and monitor commands over a serial port.
pub mod Config
pub mod Errors
pub mod Script
pub mod Pattern
pub mod Port
pub mod Expect
pub mod Monitor
pub mod Try
pub mod Execute
pub mod Select
pub mod Timeout
pub mod DryRun
pub mod Main
