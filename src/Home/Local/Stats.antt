-- ===== src/Home/Local/Stats.antt =====
-- Which figures getSystemStats takes from the output of `free -m`.
use mqtt_home_automation.Base.{
  ℕ, ◌≡◌, ◌≢◌, refl, ap, ◌∙◌, map, List, [], ◌∷◌, ◌++◌, Option, none, some, All,
}
use mqtt_home_automation.Base.Int.{ℤ}
use mqtt_home_automation.Text.{Bytes, codes, split, fields, trim_space}
use mqtt_home_automation.Text.Lines.{split-append}
use mqtt_home_automation.Text.Number.{atoi}
use mqtt_home_automation.Home.Local.{
  Outside, SystemStats, or_else, get_system_stats, no_stats, take_uptime, take_load,
  take_load_fields, take_memory, take_memory_lines, take_memory_words, take_count, take_cpu_count,
}
use mqtt_home_automation.Home.Local.Rows.{
  IsWord, print_row, split_blanks-print_row, print_row-plain,
}

-- A table: a heading, a row with a name and two numbers at least, and more lines.
pub print_table : Bytes → Bytes → ℕ × Bytes → ℕ × Bytes → List (ℕ × Bytes) → Bytes → Bytes
print_table heading name total used ws more =
    heading ++ b'\n' ∷ (print_row name (total ∷ used ∷ ws) ++ b'\n' ∷ more)

module _ {F : Type 0} (o : Outside F) where
  -- The two figures.
  abbrev memory : SystemStats F → F × F
  memory stats = (stats.memory_total, stats.memory_used)

  take_count-memory :
      (n : Option ℤ) (stats : SystemStats F) → memory (take_count o n stats) ≡ memory stats
  unfolding take_count
  take_count-memory none stats = refl
  take_count-memory (some n) stats = refl

  take_cpu_count-memory :
      (output : Option Bytes) (stats : SystemStats F)
      → memory (take_cpu_count o output stats) ≡ memory stats
  unfolding take_cpu_count
  take_cpu_count-memory none stats = refl
  take_cpu_count-memory (some output) stats = take_count-memory (atoi (trim_space output)) stats

  take_uptime-memory :
      (output : Option Bytes) (stats : SystemStats F)
      → memory (take_uptime o output stats) ≡ memory stats
  unfolding take_uptime
  take_uptime-memory none stats = refl
  take_uptime-memory (some output) stats = refl

  take_load_fields-memory :
      (ws : List Bytes) (stats : SystemStats F)
      → memory (take_load_fields o ws stats) ≡ memory stats
  unfolding take_load_fields
  take_load_fields-memory [] stats = refl
  take_load_fields-memory (a ∷ []) stats = refl
  take_load_fields-memory (a ∷ b ∷ []) stats = refl
  take_load_fields-memory (a ∷ b ∷ c ∷ ws) stats = refl

  take_load-memory :
      (output : Option Bytes) (stats : SystemStats F)
      → memory (take_load o output stats) ≡ memory stats
  unfolding take_load
  take_load-memory none stats = refl
  take_load-memory (some output) stats = take_load_fields-memory (fields output) stats

  -- What the words of the second line give.
  take_memory_words-memory :
      (name total used : Bytes) (ws : List Bytes) (stats : SystemStats F)
      → memory (take_memory_words o (name ∷ total ∷ used ∷ ws) stats) ≡ (
        or_else o stats.memory_total (o.parse_float total),
        or_else o stats.memory_used (o.parse_float used),
      )
  unfolding take_memory_words
  take_memory_words-memory name total used ws stats = refl

  take_memory_lines-row :
      (heading name : Bytes) (total used : ℕ × Bytes) (ws : List (ℕ × Bytes)) (lines : List Bytes)
      (stats : SystemStats F)
      → IsWord name
      → All (λ w. IsWord w.1) (total ∷ used ∷ ws)
      → take_memory_lines o (heading ∷ print_row name (total ∷ used ∷ ws) ∷ lines) stats
        ≡ take_memory_words o (name ∷ total.1 ∷ used.1 ∷ map (λ w. w.1) ws) stats
  unfolding take_memory_lines
  take_memory_lines-row heading name total used ws lines stats h hs =
      ap (λ words. take_memory_words o words stats)
        (split_blanks-print_row name (total ∷ used ∷ ws) h hs)

  split-print_table :
      (heading name : Bytes) (total used : ℕ × Bytes) (ws : List (ℕ × Bytes)) (more : Bytes)
      → All (λ c. c ≢ b'\n') heading
      → IsWord name
      → All (λ w. IsWord w.1) (total ∷ used ∷ ws)
      → split (print_table heading name total used ws more) b'\n'
        ≡ heading ∷ print_row name (total ∷ used ∷ ws) ∷ split more b'\n'
  unfolding print_table
  split-print_table heading name total used ws more plain h hs =
      let row = print_row name (total ∷ used ∷ ws) in
      split-append heading (row ++ b'\n' ∷ more) plain
      ∙ ap (λ ls. heading ∷ ls)
          (split-append row more (print_row-plain name (total ∷ used ∷ ws) h hs))

  take_memory-print_table :
      (heading name : Bytes) (total used : ℕ × Bytes) (ws : List (ℕ × Bytes)) (more : Bytes)
      (stats : SystemStats F)
      → All (λ c. c ≢ b'\n') heading
      → IsWord name
      → All (λ w. IsWord w.1) (total ∷ used ∷ ws)
      → memory (take_memory o (some (print_table heading name total used ws more)) stats) ≡ (
        or_else o stats.memory_total (o.parse_float total.1),
        or_else o stats.memory_used (o.parse_float used.1),
      )
  unfolding take_memory
  take_memory-print_table heading name total used ws more stats plain h hs =
      ap (λ lines. memory (take_memory_lines o lines stats))
        (split-print_table heading name total used ws more plain h hs)
      ∙ ap memory (take_memory_lines-row heading name total used ws (split more b'\n') stats h hs)
      ∙ take_memory_words-memory name total.1 used.1 (map (λ w. w.1) ws) stats

  -- Where `free -m` prints a heading and under it a row of a name and two numbers at least, its
  -- columns padded with any number of spaces, the total and the used memory are the first two numbers
  -- as they are parsed, and 0 where one is not, whatever the other programs print.
  pub memory-get_system_stats :
      (heading name : Bytes) (total used : ℕ × Bytes) (ws : List (ℕ × Bytes)) (more : Bytes)
      → All (λ c. c ≢ b'\n') heading
      → IsWord name
      → All (λ w. IsWord w.1) (total ∷ used ∷ ws)
      → o.output (codes "free" ∷ codes "-m" ∷ [])
        ≡ some (print_table heading name total used ws more)
      → memory (get_system_stats o) ≡ (
        or_else o o.zero_float (o.parse_float total.1),
        or_else o o.zero_float (o.parse_float used.1),
      )
  unfolding get_system_stats
  memory-get_system_stats heading name total used ws more plain h hs e =
      let uptime = take_uptime o (o.output (codes "uptime" ∷ codes "-p" ∷ [])) (no_stats o) in
      let load = take_load o (o.output (codes "cat" ∷ codes "/proc/loadavg" ∷ [])) uptime in
      let before : memory load ≡ (o.zero_float, o.zero_float) =
        take_load-memory (o.output (codes "cat" ∷ codes "/proc/loadavg" ∷ [])) uptime
        ∙ take_uptime-memory (o.output (codes "uptime" ∷ codes "-p" ∷ [])) (no_stats o) in
      take_cpu_count-memory (o.output (codes "nproc" ∷ []))
        (take_memory o (o.output (codes "free" ∷ codes "-m" ∷ [])) load)
      ∙ ap (λ output. memory (take_memory o output load)) e
      ∙ take_memory-print_table heading name total used ws more load plain h hs
      ∙ ap
          (λ (f : F × F).
            (or_else o f.0 (o.parse_float total.1), or_else o f.1 (o.parse_float used.1)))
          before
