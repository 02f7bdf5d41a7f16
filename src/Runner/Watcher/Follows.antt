-- ===== src/Runner/Watcher/Follows.antt =====
-- The configuration in force follows the configuration file.
use mqtt_home_automation.Base.{
  ℕ, ◌≤◌, ◌<◌, ◌≡◌, ◌⊎◌, refl, ap, sym, ◌∙◌, Bool, true, false, List, [], ◌∷◌, ◌++◌, Option, some,
  arith, ltb, Bool-cases, Option-cases, eq_of_some, inl, inr,
}
use mqtt_home_automation.Base.Result.{ok}
use mqtt_home_automation.Text.{Bytes, codes, str_eq}
use mqtt_home_automation.Text.Equality.{eq_of_str_eq}
use mqtt_home_automation.Maps.{GoMap, lookup, insert}
use mqtt_home_automation.Maps.Laws.{lookup-insert, lookup-insert_self}
use mqtt_home_automation.Runner.State.{State, Config, with_framework, load_config}
use mqtt_home_automation.Runner.Watcher.{
  is_newer, init_files, check_file, check_files, get_watched_files, check_for_changes, watch_tick,
}
use mqtt_home_automation.Runner.Watcher.Newer.{config_file, IsNewer, check_for_changes-IsNewer}

-- What a tick finds: the files, the time and the content of the configuration file, and the clock.
pub record Version : Type 0 where
  pub glob : Bytes → Option (List Bytes)
  pub mod_time : Bytes → Option ℕ
  pub time : ℕ
  pub content : Config
  pub parses : Bytes → Bool
  pub now : ℕ

-- The configuration file has its time, and its templates are parsed.
pub record IsLoadable (file : Bytes) (v : Version) : Type 0 where
  pub timed : v.mod_time file ≡ some v.time
  pub parsed : v.parses ((with_framework v.content).server.web_dir ++ codes "/*.html") ≡ true

-- A file that is written gets a later time, and one that is not keeps its time and content.
abbrev pub Later : Version → Version → Type 0
Later v u = (v.time < u.time) ⊎ ((v.time ≡ u.time) × (v.content ≡ u.content))

pub record IsInForce (file : Bytes) (v : Version) (s : State) : Type 0 where
  pub file_kept : s.config_file ≡ file
  pub on_record : lookup file s.watched_files ≡ some v.time
  pub in_force : s.config ≡ with_framework v.content

abbrev pub tick_at : Version → State → State
tick_at v s = watch_tick v.glob v.mod_time (ok v.content) v.parses v.now s

lookup-other :
    (f g : Bytes) (t : ℕ) (w : GoMap ℕ) → str_eq g f ≡ false → lookup f (insert g t w) ≡ lookup f w
lookup-other f g t w h = lookup-insert g f t w ∙ rw h refl

-- Once a file's time is on record, the rounds of the loop keep it there.
check_file-keeps :
    (mod_time : Bytes → Option ℕ) (f g : Bytes) (t : ℕ) (w : GoMap ℕ) (changed : Bool)
    → mod_time f ≡ some t
    → lookup f w ≡ some t
    → lookup f (check_file g (mod_time g) (w, changed)).0 ≡ some t
unfolding check_file is_newer
check_file-keeps mod_time f g t w changed m l = elim (Option-cases (mod_time g)) [
  | inl e ↦ rw e l
  | inr (u, e) ↦ elim (Bool-cases (is_newer (lookup g w) u)) [
    | inr b ↦ rw (e, b) l
    | inl b ↦
        rw (e, b)
          (elim (Bool-cases (str_eq g f)) [
            | inr other ↦ lookup-other f g u w other ∙ l
            | inl same ↦
                let times : u ≡ t = eq_of_some (sym e ∙ ap mod_time (eq_of_str_eq g f same) ∙ m) in
                lookup-insert g f u w ∙ rw (same, times) refl
          ])
  ]
]

check_files-keeps :
    (mod_time : Bytes → Option ℕ) (f : Bytes) (t : ℕ) (gs : List Bytes) (r : GoMap ℕ × Bool)
    → mod_time f ≡ some t
    → lookup f r.0 ≡ some t
    → lookup f (check_files mod_time gs r).0 ≡ some t
unfolding check_files
check_files-keeps mod_time f t [] r m l = l
check_files-keeps mod_time f t (g ∷ gs) (w, changed) m l =
    check_files-keeps mod_time f t gs (check_file g (mod_time g) (w, changed)) m
      (check_file-keeps mod_time f g t w changed m l)

-- The round of the file itself puts its time on record, where an earlier one or the same is there.
check_file-records :
    (mod_time : Bytes → Option ℕ) (f : Bytes) (last t : ℕ) (w : GoMap ℕ)
    → mod_time f ≡ some t
    → lookup f w ≡ some last
    → last ≤ t
    → lookup f (check_file f (mod_time f) (w, false)).0 ≡ some t
unfolding check_file is_newer
check_file-records mod_time f last t w m l earlier = elim (Bool-cases (ltb last t)) [
  | inl new ↦ rw (m, l, new) (lookup-insert_self f t w)
  | inr old ↦
      let equal : last ≡ t = ground (arith, old, earlier) in rw (m, l, old) (l ∙ ap some equal)
]

check_files-records :
    (mod_time : Bytes → Option ℕ) (f : Bytes) (last t : ℕ) (gs : List Bytes) (w : GoMap ℕ)
    → mod_time f ≡ some t
    → lookup f w ≡ some last
    → last ≤ t
    → lookup f (check_files mod_time (f ∷ gs) (w, false)).0 ≡ some t
unfolding check_files
check_files-records mod_time f last t gs w m l earlier =
    check_files-keeps mod_time f t gs (check_file f (mod_time f) (w, false)) m
      (check_file-records mod_time f last t w m l earlier)

time_le : (v u : Version) → Later v u → v.time ≤ u.time
time_le v u (inl h) = omega (arith, h)
time_le v u (inr (h, e)) = omega (arith, h)

module _ (file : Bytes) (v u : Version) (s : State) (h : IsInForce file v s) (l : IsLoadable file u)
    (later : Later v u) where
  on_record-checked :
      lookup file (check_for_changes u.glob u.mod_time s).1.watched_files ≡ some u.time
  unfolding check_for_changes get_watched_files
  on_record-checked = rw h.file_kept (
      check_files-records u.mod_time file v.time u.time _ s.watched_files l.timed h.on_record
        (time_le v u later))

  -- A check that finds nothing new finds the version that is in force.
  unchanged : (check_for_changes u.glob u.mod_time s).0 ≡ false → v.content ≡ u.content
  unfolding get_watched_files is_newer
  unchanged quiet = elim later [
    | inr (t, e) ↦ e
    | inl newer ↦
        let found : IsNewer u.mod_time s.watched_files file = record {
          time = u.time;
          read = l.timed;
          newer =
              λ last e. let same = eq_of_some (sym h.on_record ∙ e) in ground (arith, newer, same);
        } in
        absurd (
          cc (
            (check_for_changes-IsNewer u.glob u.mod_time s).1
                (file, config_file h.file_kept, found),
            quiet,
          ))
  ]

  pub tick-IsInForce : IsInForce file u (tick_at u s)
  unfolding watch_tick load_config check_for_changes
  tick-IsInForce = elim (Bool-cases (check_for_changes u.glob u.mod_time s).0) [
    | inl b ↦
        rw (b, l.parsed)
          (record { file_kept = h.file_kept; on_record = on_record-checked; in_force = refl })
    | inr b ↦ rw b (record {
      file_kept = h.file_kept;
      on_record = on_record-checked;
      in_force = h.in_force ∙ ap with_framework (unchanged b);
    })
  ]

-- The start: the files as main finds them.
init_files-keeps :
    (mod_time : Bytes → Option ℕ) (f : Bytes) (t : ℕ) (gs : List Bytes) (w : GoMap ℕ)
    → mod_time f ≡ some t
    → lookup f w ≡ some t
    → lookup f (init_files mod_time gs w) ≡ some t
unfolding init_files
init_files-keeps mod_time f t [] w m l = l
init_files-keeps mod_time f t (g ∷ gs) w m l = elim (Option-cases (mod_time g)) [
  | inl e ↦ rw e (init_files-keeps mod_time f t gs w m l)
  | inr (u, e) ↦ rw e (
      init_files-keeps mod_time f t gs (insert g u w) m (elim (Bool-cases (str_eq g f)) [
        | inr other ↦ lookup-other f g u w other ∙ l
        | inl same ↦
            let times : u ≡ t = eq_of_some (sym e ∙ ap mod_time (eq_of_str_eq g f same) ∙ m) in
            lookup-insert g f u w ∙ rw (same, times) refl
      ]))
]

pub init_files-records :
    (mod_time : Bytes → Option ℕ) (f : Bytes) (t : ℕ) (gs : List Bytes) (w : GoMap ℕ)
    → mod_time f ≡ some t
    → lookup f (init_files mod_time (f ∷ gs) w) ≡ some t
unfolding init_files
init_files-records mod_time f t gs w m =
    rw m (init_files-keeps mod_time f t gs (insert f t w) m (lookup-insert_self f t w))
