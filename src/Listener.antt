-- ===== src/Listener.antt =====
-- cmd/mqtt_listener/main.go: commands that are run when a message comes in over MQTT.
pub mod Broker
pub mod Config
pub mod Handle
pub mod Main
