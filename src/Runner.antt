-- ===== src/Runner.antt =====
-- cmd/command_runner_server/main.go: a web page of buttons that run commands.
pub mod State
pub mod Output
pub mod Pages
pub mod System
pub mod Main
pub mod Steps
pub mod Watcher
pub mod Duration
