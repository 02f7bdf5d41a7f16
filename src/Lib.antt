-- ===== src/Lib.antt =====
-- mqtt_home_automation: the Go programs under cmd/, which read MQTT messages, serial lines and
-- web requests and start commands. A string is a list of bytes, a map an association list that holds
-- a key at most once, and over which a loop goes in its order where Go goes in any; an integer is a ℤ
-- or a ℕ over the native numbers.
--
-- Base, Text and Maps are shared: tests, lists, integers and results; what the programs use of the
-- packages strings and strconv; Go's maps with their laws. TrimSpace, Fields and ToLower are modelled
-- on ASCII, which is what the programs' own scripts and configurations hold.
--
-- Serial is cmd/serial_expect/main.go, which plays scripts against a serial port.
--   Serial.Config and Serial.Errors: the configuration, the commands and the error messages
--   Serial.Script: parseScript. Serial.Pattern: parseExpectPattern, checkMatch, formatSendValue
--   Serial.Port: the world of a running script with handleSend; Serial.Port.Reader: readSerial
--   Serial.Expect: handleExpect. Serial.Monitor: handleMonitor. Serial.Try: handleTry
--   Serial.Execute: executeScript, the loop over all commands
--   Serial.Timeout: executeScriptWithTimeout
--   Serial.Select: selectScripts, parseTryBlock, parseTimeouts, and main's loop over the scripts
--   Serial.DryRun: executeDryRun
--   Serial.Main: main, with openSerial, from the parsed flags on
-- The commands of a script share the world: the events still to come (a text from the reader's
-- channel, or the timer), the results of the writes still to come, and what was written, handed to the port,
-- logged and armed. The speed and the bits of the port, which Go could also read as negative, are ℕ. A loop of selects is a recursion on the events; where they end it waits. So a run says what
-- the code does for one order of events, and a theorem speaks of every order. Text in the channel
-- comes as the reader puts it there.
--
-- Home is cmd/home-automation-server, which keeps the status of devices for web pages.
--   Home.State: structs.go and the defaults of config.go and main.go. Home.Config: loadConfig
--   Home.Main: main.go, with the pattern of loadTemplates. The messages that come before the device
--   statuses are initialized are an argument
--   Home.Broadcast, Home.Log, Home.Status, Home.Connect: mqtt.go
--   Home.Control, Home.Socket: handleControl and handleWebSocket of web.go; Home.Pages: the rest of it
--   Home.Local: localcmd.go, with getSystemStats
--   Home.Steps: the handlers as steps that the environment chooses, and what they reach
--   Home.Locks: the goroutines that hold wsMutex, or write to a connection, step by step, with
--   those that wait for a lock
--   Home.Spec: the state without the order of its maps, with the changes that may happen to it
--   Home.Mirror: what was last written to a connection of each device, over the runs after main
-- A handler is a function from the state to the state, with its effects on the outside as fields: the
-- frames written, the connections closed, the commands started and the messages published.
--
-- Listener is cmd/mqtt_listener/main.go, which runs commands that MQTT topics name: Listener.Config
-- has the checks of parseArgs, loadXMLCommands and parseBrokerURL, Listener.Handle has executeCommand, handleMessage
-- and the subscriptions, Listener.Main has main from the parsed flags on. Listener.Broker puts the
-- listener together with a broker: a queue of topics that wait for it, to which the answers on topics
-- that it is subscribed to come back.
--
-- Remote is the server with the listener: a control request of cmd/home-automation-server on a topic of
-- cmd/mqtt_listener, and the answer on the status topic of a device.
--
-- Runner is cmd/command_runner_server/main.go, a web page of buttons that run commands: Runner.State
-- has the globals and loadConfig, Runner.Output the commands and their output, Runner.Pages the choice
-- of the user interface, Runner.Watcher the watch over the files, Runner.Duration formatDuration,
-- Runner.System the state of the machine and the pages that show it, Runner.Main main, Runner.Steps the
-- requests and the ticks of the watcher in any order.
--
-- Parameters stand for code of other packages: regexp, time.ParseDuration, os/exec, encoding/json,
-- encoding/xml, net/url, html/template, the file system, the clock, the MQTT client, the web sockets,
-- and the hours, minutes and seconds that the package time computes in floating point. What a lemma
-- needs of one is a named hypothesis: that MQTT's wildcard for one level matches a level and nothing
-- else, that a filter without wildcards matches itself only, that a listener's answer is decoded to
-- an object, that the hours of a duration are cut to whole hours.
--
-- The loop of connectMQTTWithRetry may run forever, so it has fuel, a round an attempt; a limit of n
-- attempts needs n rounds. So may that of reconnectMQTT, whose fuel is a round for two checks of the
-- connection. All other loops are recursions on lists or on counts.
--
-- Not modelled: decoding XML and JSON, rendering templates, the routes of HTTP, flags, signals and
-- logging; what the serial library does with the port; time itself, so that which of two timers fires
-- first is an argument or an event; overlapping requests to run commands, for which
-- cmd/command_runner_server has no lock; the pages,
-- scripts and packaging, which are not Go.
-- Each file below a component's own, such as Serial/Try/Retries, holds proofs about it; Examples holds
-- tests and instances of the theorems.
pub mod Base
pub mod Text
pub mod Maps
pub mod Serial
pub mod Home
pub mod Listener
pub mod Runner
pub mod Remote
pub mod Examples
