-- ===== src/Serial/Select/Names.antt =====
-- What is selected.
use mqtt_home_automation.Base.{
  ℕ, ◌+◌, ◌≡◌, ◌≢◌, ◌⊎◌, refl, ap, sym, ◌∙◌, List, [], ◌∷◌, ◌++◌, map, map-append, append-nil,
  append_assoc, subst, none, some, Bool-cases, inl, inr, Option-cases, All, All-append, IsIn,
  all-IsIn, eq_of_some,
}
use mqtt_home_automation.Base.Result.{Result, ok, err, ◌>>=◌, ok-injective, err-ne-ok}
use mqtt_home_automation.Text.{Bytes, str_eq}
use mqtt_home_automation.Text.Equality.{eq_of_str_eq}
use mqtt_home_automation.Maps.{GoMap, lookup, insert}
use mqtt_home_automation.Maps.Laws.{lookup-insert}
use mqtt_home_automation.Serial.Config.{Config, NamedScript, TryBlock}
use mqtt_home_automation.Serial.Errors.{Error}
use mqtt_home_automation.Serial.Select.{
  marker, with_name, virtual, add_scripts, check_except, add_try, add_tries, find_named, pick,
  choose, select_scripts,
}

abbrev pub script_name : NamedScript → Bytes
script_name s = s.name

-- A script that the configuration has: one of its scripts, which only gets a name when it has none, or
-- the one that stands for one of its try blocks.
pub data IsFrom (config : Config) (s : NamedScript) : Type 0 where
  script :
      (t : NamedScript)
      → IsIn t config.scripts
      → s.content ≡ t.content
      → ((s.name ≡ t.name) ⊎ (t.name ≡ []))
      → IsFrom config s
  try_block :
      (t : TryBlock)
      → IsIn t config.tries
      → s.name ≡ t.name
      → s.content ≡ marker ++ t.name
      → IsFrom config s

module _ (config : Config) where
  -- A map whose scripts are of the configuration and carry the names that they stand under.
  record IsNamed (m : GoMap NamedScript) : Type 0 where
    names : (k : Bytes) (s : NamedScript) → lookup k m ≡ some s → (s.name ≡ k) × IsFrom config s

  IsNamed-insert :
      (s : NamedScript) (m : GoMap NamedScript)
      → IsFrom config s
      → IsNamed m
      → IsNamed (insert s.name s m)
  IsNamed-insert s m from h = record {
    names = λ k t e. elim (Bool-cases (str_eq s.name k)) [
      | inl same ↦
          let e' : some s ≡ some t = rw (lookup-insert, same) at e in
          let is_t : s ≡ t = eq_of_some e' in
          (ap script_name (sym is_t) ∙ eq_of_str_eq s.name k same, subst (IsFrom config) is_t from)
      | inr other ↦ h.names k t (rw (lookup-insert, other) at e)
    ];
  }

  IsNamed-nil : IsNamed []
  unfolding lookup
  IsNamed-nil = record { names = λ k s e. absurd (cc e) }

  with_name-IsFrom :
      (i : ℕ) (s : NamedScript) → IsIn s config.scripts → IsFrom config (with_name i s)
  unfolding with_name
  with_name-IsFrom i s known = elim (Bool-cases (str_eq s.name [])) [
    | inl e ↦ rw e (script s known refl (inr (eq_of_str_eq s.name [] e)))
    | inr e ↦ rw e (script s known refl (inl refl))
  ]

  IsNamed-add_scripts :
      (i : ℕ) (ss : List NamedScript) (m : GoMap NamedScript)
      → All (λ s. IsIn s config.scripts) ss
      → IsNamed m
      → IsNamed (add_scripts i ss m)
  unfolding add_scripts
  IsNamed-add_scripts i [] m known h = h
  IsNamed-add_scripts i (s ∷ ss) m (k, known) h =
      IsNamed-add_scripts (i + 1) ss (insert (with_name i s).name (with_name i s) m) known
        (IsNamed-insert (with_name i s) m (with_name-IsFrom i s k) h)

  AllNamed : Result Error (GoMap NamedScript) → Type 0
  AllNamed (ok m) = IsNamed m
  AllNamed (err e) = Unit

  virtual-IsFrom : (t : TryBlock) → IsIn t config.tries → IsFrom config (virtual t)
  unfolding virtual
  virtual-IsFrom t known = try_block t known refl refl

  AllNamed-check_except :
      (t : TryBlock) (m : GoMap NamedScript)
      → IsIn t config.tries
      → IsNamed m
      → AllNamed (check_except t m)
  unfolding AllNamed check_except
  AllNamed-check_except t m known h = elim (Bool-cases (str_eq t.except [])) [
    | inl e ↦ rw e (IsNamed-insert (virtual t) m (virtual-IsFrom t known) h)
    | inr e ↦ rw e (elim (Option-cases (lookup t.except m)) [
      | inl f ↦ rw f tt
      | inr (s, f) ↦ rw f (IsNamed-insert (virtual t) m (virtual-IsFrom t known) h)
    ])
  ]

  AllNamed-add_try :
      (t : TryBlock) (m : GoMap NamedScript)
      → IsIn t config.tries
      → IsNamed m
      → AllNamed (add_try t m)
  unfolding add_try
  AllNamed-add_try t m known h = elim (Bool-cases (str_eq t.name [])) [
    | inl e ↦ rw e (unfold AllNamed in tt)
    | inr e ↦ rw e (elim (Option-cases (lookup t.script m)) [
      | inl f ↦ rw f (unfold AllNamed in tt)
      | inr (s, f) ↦ rw f (AllNamed-check_except t m known h)
    ])
  ]

  AllNamed-add_tries :
      (ts : List TryBlock) (m : GoMap NamedScript)
      → All (λ t. IsIn t config.tries) ts
      → IsNamed m
      → AllNamed (add_tries ts m)
  unfolding add_tries
  AllNamed-add_tries [] m known h = unfold AllNamed in h
  AllNamed-add_tries (t ∷ ts) m (k, known) h =
      next (add_try t m) (AllNamed-add_try t m k h) (λ m'. AllNamed-add_tries ts m' known)
    where
      next :
          (r : Result Error (GoMap NamedScript))
          → AllNamed r
          → ((m' : GoMap NamedScript) → IsNamed m' → AllNamed (add_tries ts m'))
          → AllNamed (r >>= add_tries ts)
      next (ok m') n rec = rec m' (unfold AllNamed in n)
      next (err e) n rec = unfold AllNamed in tt

  -- The names of what is selected, and where it is from.
  AreFound : List Bytes → List NamedScript → Type 0
  AreFound names selected = (map script_name selected ≡ names) × All (IsFrom config) selected

  pick_names :
      (names : List Bytes) (m : GoMap NamedScript) (done selected : List NamedScript)
      → IsNamed m
      → All (IsFrom config) done
      → pick names m done ≡ ok selected
      → AreFound (map script_name done ++ names) selected
  unfolding pick AreFound
  pick_names [] m done selected h from e =
      let same = ok-injective e in
      (
        ap (map script_name) (sym same) ∙ sym (append-nil (map script_name done)),
        subst (All (IsFrom config)) same from,
      )
  pick_names (n ∷ ns) m done selected h from e =
      step (Option-cases (lookup n m)) (λ d. pick_names ns m d selected h)
    where
      step :
          (lookup n m ≡ none) ⊎ ((s : NamedScript) × (lookup n m ≡ some s))
          → ((d : List NamedScript)
              → All (IsFrom config) d
              → pick ns m d ≡ ok selected
              → (map script_name selected ≡ map script_name d ++ ns) × All (IsFrom config) selected)
          → (map script_name selected ≡ map script_name done ++ n ∷ ns)
            × All (IsFrom config) selected
      step (inl f) rec = absurd (err-ne-ok (rw (f, find_named) at e))
      step (inr (s, f)) rec =
          let (name, known) = h.names n s f in
          let longer = All-append (IsFrom config) done (s ∷ []) from (known, tt) in
          let (a, all) = rec (done ++ s ∷ []) longer (rw (f, find_named) at e) in
          (
            cc (
              a,
              map-append script_name done (s ∷ []),
              name,
              append_assoc (map script_name done) (s.name ∷ []) ns,
            ),
            all,
          )

  chosen :
      (ns : List Bytes) (m : GoMap NamedScript) (selected : List NamedScript)
      → ns ≢ []
      → IsNamed m
      → choose config ns m ≡ ok selected
      → AreFound ns selected
  unfolding choose
  chosen ns [] selected ne h e = absurd (err-ne-ok e)
  chosen [] (x ∷ m) selected ne h e = absurd (ne refl)
  chosen (n ∷ ns) (x ∷ m) selected ne h e = pick_names (n ∷ ns) (x ∷ m) [] selected h tt e

  with_tries :
      (ns : List Bytes) (selected : List NamedScript) (r : Result Error (GoMap NamedScript))
      → ns ≢ []
      → AllNamed r
      → (r >>= choose config ns) ≡ ok selected
      → AreFound ns selected
  with_tries ns selected (ok m) ne n e = chosen ns m selected ne (unfold AllNamed in n) e
  with_tries ns selected (err f) ne n e = absurd (err-ne-ok e)

-- If script names are given and the selection succeeds, the scripts selected have these names, in the
-- order given, repetitions included; and each of them has the content of one of the scripts of the
-- configuration, under its name or, if it has none, under a made-up one, or stands for the try block
-- of its name.
pub select_scripts_names :
    (config : Config) (script_names : List Bytes) (selected : List NamedScript)
    → script_names ≢ []
    → select_scripts config script_names ≡ ok selected
    → (map script_name selected ≡ script_names) × All (IsFrom config) selected
unfolding select_scripts AreFound
select_scripts_names config script_names selected ne e =
    with_tries config script_names selected _ ne
      (AllNamed-add_tries config config.tries _ (all-IsIn config.tries) (
        IsNamed-add_scripts config 0 config.scripts [] (all-IsIn config.scripts)
          (IsNamed-nil config)))
      e
