-- ===== src/Home/Pages.antt =====
-- handleIndex, handleStatus, handleMQTTLog, handleSystemStats and the template function safeAttr of
-- cmd/home-automation-server/web.go. Whether the template takes its data, and encoding/json, are
-- parameters.
use mqtt_home_automation.Base.{ℕ, Bool, List, [], if◌then◌else◌}
use mqtt_home_automation.Text.{Bytes, codes, str_eq, replace_all}
use mqtt_home_automation.Maps.{GoMap}
use mqtt_home_automation.Home.State.{App, Config, Category, Device, DeviceStatus, LogEntry}
use mqtt_home_automation.Home.Local.{Outside, SystemStats, get_system_stats}

safe_attr : Bytes → Bytes
safe_attr s = if str_eq s [] then [] else replace_all s (codes "'") (codes "\\'")

record IndexData : Type 0 where
  pub config : Config
  pub categories : List Category
  pub devices : List Device
  pub title : Bytes
  pub id : Bytes

index_data : Bytes → App → IndexData
index_data id app = record {
  config = app.config;
  categories = app.config.categories;
  devices = app.config.devices;
  title = codes "Home Automation Control";
  id = id;
}

-- The status code; `renders` is whether the template index.html is executed without an error.
handle_index : (IndexData → Bool) → Bytes → App → ℕ
unfolding index_data
handle_index renders id app = if renders (index_data id app) then 200 else 500

-- The bodies of the answers.
handle_status : (GoMap DeviceStatus → Bytes) → App → Bytes
handle_status encode app = encode app.device_status

handle_mqtt_log : (List LogEntry → Bytes) → App → Bytes
handle_mqtt_log encode app = encode app.log

handle_system_stats : {F : Type 0} → Outside F → (SystemStats F → Bytes) → Bytes
unfolding get_system_stats
handle_system_stats o encode = encode (get_system_stats o)
