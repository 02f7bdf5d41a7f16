-- ===== src/Runner/Watcher/Changes.antt =====
-- Which changes are seen, and that each is seen once.
use mqtt_home_automation.Base.{
  ℕ, ◌≡◌, ◌⊎◌, refl, ap, sym, ◌∙◌, Bool, true, false, List, [], ◌∷◌, Option, some, arith, All,
  Bool-cases, Option-cases, eq_of_some, inl, inr,
}
use mqtt_home_automation.Text.{Bytes, str_eq}
use mqtt_home_automation.Text.Equality.{eq_of_str_eq}
use mqtt_home_automation.Maps.{GoMap, lookup, insert}
use mqtt_home_automation.Maps.Laws.{lookup-insert, lookup-insert_self}
use mqtt_home_automation.Runner.State.{State}
use mqtt_home_automation.Runner.Watcher.{
  is_newer, check_file, check_files, get_watched_files, check_for_changes,
}

module _ (mod_time : Bytes → Option ℕ) where
  -- The time on record for a file is not before its last change, if that can be read.
  pub record IsSeen (w : GoMap ℕ) (f : Bytes) : Type 0 where
    pub seen : (t : ℕ) → mod_time f ≡ some t → is_newer (lookup f w) t ≡ false

  pub is_newer_self : (t : ℕ) → is_newer (some t) t ≡ false
  unfolding is_newer
  is_newer_self t = ground arith

  -- A file that has been checked is seen, and what was seen stays so.
  check_file-IsSeen_self :
      (f : Bytes) (r : GoMap ℕ × Bool) → IsSeen (check_file f (mod_time f) r).0 f
  unfolding check_file
  check_file-IsSeen_self f (w, changed) = record { seen = λ t e. read t e (Bool-cases _) }
    where
      read :
          (t : ℕ)
          → mod_time f ≡ some t
          → (is_newer (lookup f w) t ≡ true) ⊎ (is_newer (lookup f w) t ≡ false)
          → is_newer (lookup f (check_file f (mod_time f) (w, changed)).0) t ≡ false
      read t e (inl new) = rw (e, new, lookup-insert_self f t w) (is_newer_self t)
      read t e (inr old) = rw (e, old) old

  pub is_newer-insert :
      (f g : Bytes) (w : GoMap ℕ) (t u : ℕ)
      → mod_time f ≡ some t
      → mod_time g ≡ some u
      → is_newer (lookup g w) u ≡ false
      → is_newer (lookup g (insert f t w)) u ≡ false
  is_newer-insert f g w t u ef eg h = elim (Bool-cases (str_eq f g)) [
    | inl e ↦
        let same : t ≡ u = eq_of_some (sym ef ∙ ap mod_time (eq_of_str_eq f g e) ∙ eg) in
        rw (lookup-insert f g t w, e, same) (is_newer_self u)
    | inr e ↦ rw (lookup-insert f g t w, e) h
  ]

  check_file-IsSeen :
      (f g : Bytes) (r : GoMap ℕ × Bool) → IsSeen r.0 g → IsSeen (check_file f (mod_time f) r).0 g
  unfolding check_file
  check_file-IsSeen f g (w, changed) h = elim (Option-cases (mod_time f)) [
    | inl e ↦ rw e h
    | inr (t, e) ↦ elim (Bool-cases (is_newer (lookup f w) t)) [
      | inl new ↦
          rw (e, new) (record { seen = λ u eg. is_newer-insert f g w t u e eg (h.seen u eg) })
      | inr old ↦ rw (e, old) h
    ]
  ]

  check_files-keeps :
      (fs : List Bytes) (g : Bytes) (r : GoMap ℕ × Bool)
      → IsSeen r.0 g
      → IsSeen (check_files mod_time fs r).0 g
  unfolding check_files
  check_files-keeps [] g r h = h
  check_files-keeps (f ∷ fs) g r h =
      check_files-keeps fs g (check_file f (mod_time f) r) (check_file-IsSeen f g r h)

  check_files-IsSeen :
      (fs : List Bytes) (r : GoMap ℕ × Bool) → All (IsSeen (check_files mod_time fs r).0) fs
  unfolding check_files
  check_files-IsSeen [] r = tt
  check_files-IsSeen (f ∷ fs) r = (
    check_files-keeps fs f (check_file f (mod_time f) r) (check_file-IsSeen_self f r),
    check_files-IsSeen fs (check_file f (mod_time f) r),
  )

  check_file_seen :
      (f : Bytes) (r : GoMap ℕ × Bool) → IsSeen r.0 f → check_file f (mod_time f) r ≡ r
  unfolding check_file
  check_file_seen f (w, changed) h = elim (Option-cases (mod_time f)) [
    | inl e ↦ rw e
    | inr (t, e) ↦ rw (e, h.seen t e)
  ]

  -- Files that are all seen change nothing.
  pub check_files_seen :
      (fs : List Bytes) (r : GoMap ℕ × Bool) → All (IsSeen r.0) fs → check_files mod_time fs r ≡ r
  unfolding check_files
  check_files_seen [] r h = refl
  check_files_seen (f ∷ fs) r (seen, rest) =
      rw (check_file_seen f r seen) (check_files_seen fs r rest)

  -- The flag of a change is never reset.
  check_file_flag :
      (f : Bytes) (r : GoMap ℕ × Bool) → r.1 ≡ true → (check_file f (mod_time f) r).1 ≡ true
  unfolding check_file
  check_file_flag f (w, changed) h = elim (Option-cases (mod_time f)) [
    | inl e ↦ rw e h
    | inr (t, e) ↦ elim (Bool-cases (is_newer (lookup f w) t)) [
      | inl b ↦ rw (e, b)
      | inr b ↦ rw (e, b) h
    ]
  ]

  pub check_files_flag :
      (fs : List Bytes) (r : GoMap ℕ × Bool) → r.1 ≡ true → (check_files mod_time fs r).1 ≡ true
  unfolding check_files
  check_files_flag [] r h = h
  check_files_flag (f ∷ fs) r h =
      check_files_flag fs (check_file f (mod_time f) r) (check_file_flag f r h)

  pub check_file-cases :
      (f : Bytes) (w : GoMap ℕ)
      → (check_file f (mod_time f) (w, false) ≡ (w, false))
        ⊎ ((check_file f (mod_time f) (w, false)).1 ≡ true)
  unfolding check_file
  check_file-cases f w = elim (Option-cases (mod_time f)) [
    | inl e ↦ inl (rw e)
    | inr (t, e) ↦ elim (Bool-cases (is_newer (lookup f w) t)) [
      | inl b ↦ inr (rw (e, b))
      | inr b ↦ inl (rw (e, b))
    ]
  ]

  -- Without the flag, nothing was put on record.
  check_files_silent :
      (fs : List Bytes) (w : GoMap ℕ)
      → (check_files mod_time fs (w, false)).1 ≡ false
      → check_files mod_time fs (w, false) ≡ (w, false)
  unfolding check_files
  check_files_silent [] w h = refl
  check_files_silent (f ∷ fs) w h = elim (check_file-cases f w) [
    | inl e ↦ rw e (check_files_silent fs w (ap (λ r. (check_files mod_time fs r).1) (sym e) ∙ h))
    | inr e ↦
        let flag = check_files_flag fs (check_file f (mod_time f) (w, false)) e in cc (flag, h)
  ]

-- After a check, another check that finds the same files with the same times reports no change and
-- leaves the state as it is.
pub check_for_changes_once :
    (glob : Bytes → Option (List Bytes)) (mod_time : Bytes → Option ℕ) (s : State)
    → check_for_changes glob mod_time (check_for_changes glob mod_time s).1
      ≡ (false, (check_for_changes glob mod_time s).1)
unfolding check_for_changes get_watched_files
check_for_changes_once glob mod_time s =
    let fs = get_watched_files glob s in
    let r = check_files mod_time fs (s.watched_files, false) in
    ap (λ (q : GoMap ℕ × Bool). (q.1, record s { watched_files = q.0 }))
      (check_files_seen mod_time fs (r.0, false)
        (check_files-IsSeen mod_time fs (s.watched_files, false)))

-- A check that reports no change leaves the state as it is.
pub check_for_changes_silent :
    (glob : Bytes → Option (List Bytes)) (mod_time : Bytes → Option ℕ) (s : State)
    → (check_for_changes glob mod_time s).0 ≡ false
    → (check_for_changes glob mod_time s).1 ≡ s
unfolding check_for_changes
check_for_changes_silent glob mod_time s h =
    ap (λ (q : GoMap ℕ × Bool). record s { watched_files = q.0 })
      (check_files_silent mod_time (get_watched_files glob s) s.watched_files h)
