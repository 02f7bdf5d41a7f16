-- ===== src/Runner/Watcher/Newer.antt =====
-- Which checks report a change.
use mqtt_home_automation.Base.{
  ℕ, ◌<◌, ◌≡◌, ◌⊎◌, ◌↔◌, refl, ap, ◌∙◌, Bool, true, false, List, [], ◌∷◌, ◌++◌, Option, none, some,
  arith, All, Any, Any-append_left, Any-append_right, Any-append-cases, IsIn, Any-IsIn, IsIn-Any,
  Bool-cases, Option-cases, eq_of_some, inl, inr,
}
use mqtt_home_automation.Text.{Bytes, codes}
use mqtt_home_automation.Maps.{GoMap, lookup}
use mqtt_home_automation.Runner.State.{State}
use mqtt_home_automation.Runner.Watcher.{
  matched, is_newer, check_file, check_files, get_watched_files, check_for_changes,
}
use mqtt_home_automation.Runner.Watcher.Changes.{
  IsSeen, check_files_seen, check_files_flag, check_file-cases,
}

after_of_is_newer :
    (o : Option ℕ) (t : ℕ) → is_newer o t ≡ true → (last : ℕ) → o ≡ some last → last < t
unfolding is_newer
after_of_is_newer none t h last e = cc e
after_of_is_newer (some u) t h last e =
    let same : u ≡ last = eq_of_some e in ground (arith, h, same)

is_newer_of_after :
    (o : Option ℕ) (t : ℕ) → ((last : ℕ) → o ≡ some last → last < t) → is_newer o t ≡ true
unfolding is_newer
is_newer_of_after none t h = refl
is_newer_of_after (some u) t h = let less : u < t = h u refl in ground (arith, less)

-- The patterns of the pages, the styles and the scripts below the web directory.
abbrev pub patterns : List Bytes
patterns = codes "/*.html" ∷ codes "/static/css/*.css" ∷ codes "/static/js/*.js" ∷ []

-- The files watched: the configuration, and what Glob finds for the patterns; the patterns for which
-- it fails have none.
pub data IsWatched (glob : Bytes → Option (List Bytes)) (s : State) (f : Bytes) : Type 0 where
  config_file : s.config_file ≡ f → IsWatched glob s f
  web_file :
      (pattern : Bytes) (files : List Bytes)
      → IsIn pattern patterns
      → glob (s.config.server.web_dir ++ pattern) ≡ some files
      → IsIn f files
      → IsWatched glob s f

module _ (glob : Bytes → Option (List Bytes)) (s : State) (f : Bytes) where
  matched-IsWatched :
      (pattern : Bytes)
      → IsIn pattern patterns
      → IsIn f (matched (glob (s.config.server.web_dir ++ pattern)))
      → IsWatched glob s f
  unfolding matched
  matched-IsWatched pattern known found =
      elim (Option-cases (glob (s.config.server.web_dir ++ pattern))) [
        | inl e ↦ absurd (rw e at found)
        | inr (files, e) ↦ web_file pattern files known e (rw e at found)
      ]

  get_watched_files-IsWatched : IsIn f (get_watched_files glob s) → IsWatched glob s f
  unfolding get_watched_files
  get_watched_files-IsWatched (inl e) = config_file e
  get_watched_files-IsWatched (inr i) = elim (Any-append-cases _ _ _ i) [
    | inl pages ↦ matched-IsWatched (codes "/*.html") (inl refl) pages
    | inr j ↦ elim (Any-append-cases _ _ _ j) [
      | inl styles ↦ matched-IsWatched (codes "/static/css/*.css") (inr (inl refl)) styles
      | inr scripts ↦ matched-IsWatched (codes "/static/js/*.js") (inr (inr (inl refl))) scripts
    ]
  ]

  IsIn-matched :
      (p q : Bytes) (files : List Bytes)
      → q ≡ p
      → glob (s.config.server.web_dir ++ p) ≡ some files
      → IsIn f files
      → IsIn f (matched (glob (s.config.server.web_dir ++ q)))
  unfolding matched
  IsIn-matched p q files e g i = rw (e, g) i

  found_by : Bytes → List Bytes
  found_by pattern = matched (glob (s.config.server.web_dir ++ pattern))

  IsWatched-get_watched_files : IsWatched glob s f → IsIn f (get_watched_files glob s)
  unfolding get_watched_files found_by
  IsWatched-get_watched_files (config_file e) = inl e
  IsWatched-get_watched_files (web_file p files (inl e) g i) =
      inr
        (Any-append_left (λ y. y ≡ f) (found_by (codes "/*.html")) _ (IsIn-matched p _ files e g i))
  IsWatched-get_watched_files (web_file p files (inr (inl e)) g i) = inr (
      Any-append_right (λ y. y ≡ f) (found_by (codes "/*.html")) _
        (Any-append_left (λ y. y ≡ f) (found_by (codes "/static/css/*.css")) _
          (IsIn-matched p _ files e g i)))
  IsWatched-get_watched_files (web_file p files (inr (inr (inl e))) g i) = inr (
      Any-append_right (λ y. y ≡ f) (found_by (codes "/*.html")) _
        (Any-append_right (λ y. y ≡ f) (found_by (codes "/static/css/*.css")) _
          (IsIn-matched p _ files e g i)))
  IsWatched-get_watched_files (web_file p files (inr (inr (inr e))) g i) = absurd e

module _ (mod_time : Bytes → Option ℕ) where
  -- The file can be read, and there is no time on record for it or an earlier one.
  pub record IsNewer (w : GoMap ℕ) (f : Bytes) : Type 0 where
    pub time : ℕ
    pub read : mod_time f ≡ some time
    pub newer : (last : ℕ) → lookup f w ≡ some last → last < time

  IsNewer-cases : (w : GoMap ℕ) (f : Bytes) → IsNewer w f ⊎ IsSeen mod_time w f
  IsNewer-cases w f = elim (Option-cases (mod_time f)) [
    | inl e ↦ inr (record { seen = λ t h. cc (e, h) })
    | inr (t, e) ↦ elim (Bool-cases (is_newer (lookup f w) t)) [
      | inl b ↦ inl (record { time = t; read = e; newer = after_of_is_newer _ t b })
      | inr b ↦ inr (record { seen = λ u h. cc (e, h, b) })
    ]
  ]

  Any-IsNewer-cases :
      (w : GoMap ℕ) (fs : List Bytes) → Any (IsNewer w) fs ⊎ All (IsSeen mod_time w) fs
  Any-IsNewer-cases w [] = inr tt
  Any-IsNewer-cases w (f ∷ fs) = elim (IsNewer-cases w f) [
    | inl n ↦ inl (inl n)
    | inr s ↦ elim (Any-IsNewer-cases w fs) [ inl n ↦ inl (inr n) | inr seen ↦ inr (s, seen) ]
  ]

  check_file-IsNewer :
      (f : Bytes) (w : GoMap ℕ) → IsNewer w f → (check_file f (mod_time f) (w, false)).1 ≡ true
  unfolding check_file
  check_file-IsNewer f w n = rw (n.read, is_newer_of_after (lookup f w) n.time n.newer)

  check_files-IsNewer :
      (fs : List Bytes) (w : GoMap ℕ)
      → Any (IsNewer w) fs
      → (check_files mod_time fs (w, false)).1 ≡ true
  unfolding check_files
  check_files-IsNewer [] w n = absurd n
  check_files-IsNewer (f ∷ fs) w (inl n) =
      check_files_flag mod_time fs (check_file f (mod_time f) (w, false)) (check_file-IsNewer f w n)
  check_files-IsNewer (f ∷ fs) w (inr n) = elim (check_file-cases mod_time f w) [
    | inl e ↦ ap (λ r. (check_files mod_time fs r).1) e ∙ check_files-IsNewer fs w n
    | inr b ↦ check_files_flag mod_time fs (check_file f (mod_time f) (w, false)) b
  ]

-- A check reports a change exactly if there is a file, the one of the configuration or one that Glob
-- finds for one of the three patterns below the web directory, that can be read and either has no
-- time on record or was last changed after the time on record.
pub check_for_changes-IsNewer :
    (glob : Bytes → Option (List Bytes)) (mod_time : Bytes → Option ℕ) (s : State)
    → (((check_for_changes glob mod_time s).0 ≡ true)
        ↔ ((f : Bytes) × IsWatched glob s f × IsNewer mod_time s.watched_files f))
unfolding check_for_changes
check_for_changes-IsNewer glob mod_time s =
    let files = get_watched_files glob s in
    (
      λ h. elim (Any-IsNewer-cases mod_time s.watched_files files) [
        | inl n ↦
            let (f, i, newer) = Any-IsIn _ files n in
            (f, get_watched_files-IsWatched glob s f i, newer)
        | inr seen ↦
            let same = check_files_seen mod_time files (s.watched_files, false) seen in
            let flag = ap (λ (r : GoMap ℕ × Bool). r.1) same in cc (h, flag)
      ],
      λ (f, i, newer).
          check_files-IsNewer mod_time files s.watched_files
            (IsIn-Any _ files (IsWatched-get_watched_files glob s f i) newer),
    )
