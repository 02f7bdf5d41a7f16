-- ===== src/Home/Local.antt =====
-- executeLocalCommand and getSystemStats of cmd/home-automation-server/localcmd.go. Running a program
-- (os/exec) and the floating-point numbers are parameters.
pub mod Rows
pub mod Stats
use mqtt_home_automation.Base.{
  ℕ, Bool, false, ◌||◌, List, [], ◌∷◌, ◌++◌, Option, none, some, ◌==◌, if◌then◌else◌,
}
use mqtt_home_automation.Base.Int.{ℤ, pos}
use mqtt_home_automation.Text.{Bytes, codes, trim_space, split, fields}
use mqtt_home_automation.Text.Number.{atoi}

-- The program that executeLocalCommand runs, and what it logs of its output and of its error, if
-- there is one.
execute_local_command : (List Bytes → Bytes × Option Bytes) → Bytes → List Bytes × Bytes
execute_local_command exec command =
    let program = codes "sh" ∷ codes "-c" ∷ command ∷ [] in
    let (output, error) = exec program in
    (
      program,
      elim error [
        | none ↦ codes "Local command executed successfully. Output: " ++ output
        | some e ↦ codes "Local command failed: " ++ (e ++ (codes ", Output: " ++ output))
      ],
    )

-- \s
unfoldable pub is_blank : ℕ → Bool
is_blank c = c == 32 || c == 9 || c == 10 || c == 12 || c == 13

starts_blank : Bytes → Bool
unfolding is_blank
starts_blank [] = false
starts_blank (c ∷ s) = is_blank c

-- The pieces of `word` and the rest of a text, cut at the runs of blanks.
pub pieces : Bytes → Bytes → List Bytes
unfolding is_blank starts_blank
pieces word [] = word ∷ []
pieces word (c ∷ s) =
    let skipped = pieces word s in
    let cut = word ∷ pieces [] s in
    let grown = pieces (word ++ c ∷ []) s in
    if is_blank c then (if starts_blank s then skipped else cut) else grown

-- regexp.MustCompile(`\s+`).Split(s, -1)
pub split_blanks : Bytes → List Bytes
unfolding pieces
split_blanks s = pieces [] s

pub record SystemStats (F : Type 0) : Type 0 where
  pub uptime : Bytes
  pub load_avg1 : F
  pub load_avg5 : F
  pub load_avg15 : F
  pub memory_used : F
  pub memory_total : F
  pub cpu_count : ℤ

-- What surrounds the program: the output of a program that ends well, and strconv.ParseFloat.
pub record Outside (F : Type 0) : Type 0 where
  pub output : List Bytes → Option Bytes
  pub parse_float : Bytes → Option F
  pub zero_float : F

module _ {F : Type 0} (o : Outside F) where
  no_stats : SystemStats F
  no_stats = record {
    uptime = [];
    load_avg1 = o.zero_float;
    load_avg5 = o.zero_float;
    load_avg15 = o.zero_float;
    memory_used = o.zero_float;
    memory_total = o.zero_float;
    cpu_count = pos 0;
  }

  -- The number, where there is one, else the value as it was.
  pub or_else : F → Option F → F
  or_else old none = old
  or_else old (some x) = x

  take_uptime : Option Bytes → SystemStats F → SystemStats F
  take_uptime none stats = stats
  take_uptime (some output) stats = record stats { uptime = trim_space output }

  take_load_fields : List Bytes → SystemStats F → SystemStats F
  unfolding or_else
  take_load_fields (a ∷ b ∷ c ∷ ws) stats = record stats {
    load_avg1 = or_else stats.load_avg1 (o.parse_float a);
    load_avg5 = or_else stats.load_avg5 (o.parse_float b);
    load_avg15 = or_else stats.load_avg15 (o.parse_float c);
  }
  take_load_fields ws stats = stats

  take_load : Option Bytes → SystemStats F → SystemStats F
  unfolding take_load_fields
  take_load none stats = stats
  take_load (some output) stats = take_load_fields (fields output) stats

  take_memory_words : List Bytes → SystemStats F → SystemStats F
  unfolding or_else
  take_memory_words (name ∷ total ∷ used ∷ ws) stats = record stats {
    memory_total = or_else stats.memory_total (o.parse_float total);
    memory_used = or_else stats.memory_used (o.parse_float used);
  }
  take_memory_words ws stats = stats

  take_memory_lines : List Bytes → SystemStats F → SystemStats F
  unfolding take_memory_words split_blanks
  take_memory_lines (head ∷ line ∷ lines) stats = take_memory_words (split_blanks line) stats
  take_memory_lines lines stats = stats

  take_memory : Option Bytes → SystemStats F → SystemStats F
  unfolding take_memory_lines
  take_memory none stats = stats
  take_memory (some output) stats = take_memory_lines (split output b'\n') stats

  take_count : Option ℤ → SystemStats F → SystemStats F
  take_count none stats = stats
  take_count (some n) stats = record stats { cpu_count = n }

  take_cpu_count : Option Bytes → SystemStats F → SystemStats F
  unfolding take_count
  take_cpu_count none stats = stats
  take_cpu_count (some output) stats = take_count (atoi (trim_space output)) stats

  unfoldable pub get_system_stats : SystemStats F
  unfolding no_stats take_uptime take_load take_memory take_cpu_count
  get_system_stats =
      let uptime = take_uptime (o.output (codes "uptime" ∷ codes "-p" ∷ [])) no_stats in
      let load = take_load (o.output (codes "cat" ∷ codes "/proc/loadavg" ∷ [])) uptime in
      let memory = take_memory (o.output (codes "free" ∷ codes "-m" ∷ [])) load in
      take_cpu_count (o.output (codes "nproc" ∷ [])) memory
