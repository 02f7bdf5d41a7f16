-- ===== src/Examples/Watching.antt =====
-- What the file watcher and the pages of cmd/command_runner_server do.
use mqtt_home_automation.Base.{◌≡◌, ◌↔◌, refl, true, [], none, some, arith, inl, if◌then◌else◌}
use mqtt_home_automation.Base.Result.{ok, err}
use mqtt_home_automation.Text.{Bytes, codes, str_eq}
use mqtt_home_automation.Maps.{lookup}
use mqtt_home_automation.Runner.State.{State, not_read, load_config, with_framework}
use mqtt_home_automation.Runner.Watcher.{check_for_changes, watch_tick}
use mqtt_home_automation.Runner.Watcher.Newer.{
  IsWatched, config_file, IsNewer, check_for_changes-IsNewer,
}
use mqtt_home_automation.Runner.Watcher.Reloads.{watch_tick_not_retried}
use mqtt_home_automation.Runner.Main.{serving, initial, init_file_watcher, main}
use mqtt_home_automation.Runner.Main.Watches.{IsWatching, main_watches}
use mqtt_home_automation.Runner.Watcher.Follows.{Version, tick_at}
use mqtt_home_automation.Runner.Main.Follows.{Follows, begin, tick, request, main-Follows}
use mqtt_home_automation.Runner.Output.{run_command_handler}
use mqtt_home_automation.Runner.Steps.Outputs.{reports, main_shows_reports}
use mqtt_home_automation.Runner.Output.{max_output_size, output_handler}
use mqtt_home_automation.Runner.Output.Tail.{last_bytes}
use mqtt_home_automation.Runner.Steps.{Reach, run, here, next}
use mqtt_home_automation.Runner.Steps.Invariant.{IsSound, main-IsSound}
use mqtt_home_automation.Runner.System.{
  Machine, index_out_of_range, home_handler, api_stats_handler,
}
use mqtt_home_automation.Runner.System.Memory.{IsMalformed, home_handler_panics}
use mqtt_home_automation.Examples.Running.{runner, glob, mod_time, unset, parses, clock}

check_for_changes-IsNewer_example :
    ((check_for_changes glob mod_time runner).0 ≡ true)
    ↔ ((f : Bytes) × IsWatched glob runner f × IsNewer mod_time runner.watched_files f)
check_for_changes-IsNewer_example = check_for_changes-IsNewer glob mod_time runner

new_file : IsNewer mod_time runner.watched_files (codes "c.xml")
unfolding lookup
new_file = record { time = 7; read = refl; newer = λ last e. cc e }

reports_new_file : (check_for_changes glob mod_time runner).0 ≡ true
reports_new_file =
    (check_for_changes-IsNewer glob mod_time runner).1 (codes "c.xml", config_file refl, new_file)

-- The file cannot be read at the first tick.
unread :
    (load_config (err not_read) parses 9 (check_for_changes glob mod_time runner).1).0
    ≡ some not_read
unfolding load_config
unread = refl

watch_tick_not_retried_example :
    (watch_tick glob mod_time (err not_read) parses 9 runner
      ≡ (check_for_changes glob mod_time runner).1)
    × (watch_tick glob mod_time
          (ok unset)
          parses
          10
          (watch_tick glob mod_time (err not_read) parses 9 runner)
        ≡ watch_tick glob mod_time (err not_read) parses 9 runner)
watch_tick_not_retried_example =
    watch_tick_not_retried glob mod_time (err not_read) parses 9 runner not_read unread (ok unset)
      parses 10

-- The server starts at 5 and has loaded its configuration at 6.
abbrev running : State
running = init_file_watcher glob mod_time (record initial {
  config = with_framework unset;
  templates = codes "web/*.html";
  config_file = codes "c.xml";
  last_reload_time = some 5;
})

serves :
    main glob mod_time (codes "c.xml") (ok unset) parses 5 6
    ≡ serving (codes ":8080") (codes "web/static/") running
unfolding main load_config
serves = refl

main_watches_example : IsWatching glob mod_time 5 running
main_watches_example = main_watches glob mod_time (codes "c.xml") (ok unset) parses 5 6 serves

abbrev machine : Machine
machine = record {
  is_linux = true;
  read_file = λ f. some (codes "MemTotal:");
  uptime = none;
  whole_seconds = λ s. none;
  percent = λ used total. codes "0.0";
  clock = clock;
  format_time = λ t. [];
  go_version = codes "go";
}

home_handler_panics_example :
    ((home_handler machine 5 9 runner none ≡ err index_out_of_range) ↔ IsMalformed machine)
    × ((api_stats_handler machine 5 9 runner ≡ err index_out_of_range) ↔ IsMalformed machine)
home_handler_panics_example = home_handler_panics machine 5 9 runner none

-- A command is run.
abbrev after_run : State
after_run =
    run_command_handler (λ ws. (codes "hi", none)) (codes "t") (codes "POST") (codes "Hi")
      (codes "echo hi") running

main-IsSound_example : IsSound (codes "c.xml") after_run
main-IsSound_example = main-IsSound glob mod_time (codes "c.xml") (ok unset) parses 5 6 serves (
    next here (
      run (λ ws. (codes "hi", none)) (codes "t") (codes "POST") (codes "Hi") (codes "echo hi")
        running))

-- What is shown then.
abbrev ran_hi : Reach running after_run
ran_hi = next here (
    run (λ ws. (codes "hi", none)) (codes "t") (codes "POST") (codes "Hi") (codes "echo hi")
      running)

main_shows_reports_example : output_handler after_run ≡ (
    if str_eq (reports ran_hi) []
    then codes "No commands executed yet."
    else last_bytes max_output_size (reports ran_hi))
main_shows_reports_example =
    main_shows_reports glob mod_time (codes "c.xml") (ok unset) parses 5 6 serves ran_hi

-- The file as main finds it, and as it is written later.
abbrev at_start : Version
at_start = record {
  glob = glob;
  mod_time = mod_time;
  time = 7;
  content = unset;
  parses = parses;
  now = 6;
}

abbrev written : Version
written = record at_start {
  mod_time = λ f. some 8;
  time = 8;
  content = record unset { server = record unset.server { port = codes "9090" } };
  now = 9;
}

abbrev after_write : State
after_write = tick_at written after_run

follows : Follows (codes "c.xml") at_start running written after_write
follows =
    tick written
      (request (λ ws. (codes "hi", none)) (codes "t") (codes "POST") (codes "Hi") (codes "echo hi")
        begin)
      (record { timed = refl; parsed = refl }) (inl (omega arith))

main-Follows_example : after_write.config ≡ with_framework written.content
main-Follows_example =
    main-Follows (codes "c.xml") at_start 5 (record { timed = refl; parsed = refl }) serves follows
