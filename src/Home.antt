-- ===== src/Home.antt =====
-- cmd/home-automation-server: the web server that shows and controls devices over MQTT.
pub mod State
pub mod Broadcast
pub mod Log
pub mod Status
pub mod Config
pub mod Connect
pub mod Control
pub mod Socket
pub mod Steps
pub mod Locks
pub mod Spec
pub mod Mirror
pub mod Local
pub mod Pages
pub mod Main
