-- ===== src/Runner/System/Memory.antt =====
-- When getMemoryInfo indexes past the fields of a line.
use mqtt_home_automation.Base.{
  ℕ, ◌≡◌, ◌↔◌, ◌⊎◌, refl, sym, ap, subst, ◌∙◌, Bool, true, false, ◌&&◌, ◌||◌, List, [], ◌∷◌, Option,
  none, some, length, ltb, Any, arith, Bool-cases, eq_of_some, inl, inr,
}
use mathlib.Core.Option.{none-ne-some}
use mqtt_home_automation.Base.Result.{Result, ok, err, err-ne-ok, ◌>>=◌}
use mqtt_home_automation.Text.{Bytes, codes, has_prefix, split, fields}
use mqtt_home_automation.Runner.State.{State}
use mqtt_home_automation.Runner.System.{
  Machine, Panic, index_out_of_range, file_on, second, take_line, take_lines, get_memory_info,
  memory_found, memory_read, api_stats_handler, home_handler,
}

-- A line of the total or of the available memory on which nothing follows its name.
abbrev pub lacks_value : Bytes → Bool
lacks_value line =
    (has_prefix line (codes "MemTotal:") || has_prefix line (codes "MemAvailable:"))
    && ltb (length (fields line)) 2

pub record LacksValue (line : Bytes) : Type 0 where
  pub lacks : lacks_value line ≡ true

-- A Linux machine whose /proc/meminfo has such a line.
pub record IsMalformed (m : Machine) : Type 0 where
  pub text : Bytes
  pub linux : m.is_linux ≡ true
  pub read : m.read_file (codes "/proc/meminfo") ≡ some text
  pub line : Any LacksValue (split text b'\n')

-- A result is a panic where `b` holds, and else there is one.
abbrev pub PanicsIf {ℓ} : {A : Type ℓ} → Result Panic A → Bool → Type ℓ
PanicsIf {A = A} r b =
    ((a : A) × (r ≡ ok a) × (b ≡ false)) ⊎ ((r ≡ err index_out_of_range) × (b ≡ true))

second-cases : (ps : List Bytes) → PanicsIf (second ps) (ltb (length ps) 2)
unfolding second
second-cases [] = inr (refl, ground arith)
second-cases (a ∷ []) = inr (refl, ground arith)
second-cases (a ∷ b ∷ ps) = inl (b, refl, ground arith)

bind-cases :
    {A B : Type 0} {b : Bool} (r : Result Panic A) (f : A → B)
    → PanicsIf r b
    → PanicsIf (r >>= λ a. ok (f a)) b
bind-cases r f (inl (a, e, h)) = inl (f a, rw e, h)
bind-cases r f (inr (e, h)) = inr (rw e, h)

take_line-cases :
    (line : Bytes) (found : Bytes × Bytes) → PanicsIf (take_line line found) (lacks_value line)
unfolding take_line
take_line-cases line (total, available) = elim (Bool-cases (has_prefix line (codes "MemTotal:"))) [
  | inl t ↦
      rw t (bind-cases (second (fields line)) (λ v. (v, available)) (second-cases (fields line)))
  | inr t ↦ elim (Bool-cases (has_prefix line (codes "MemAvailable:"))) [
    | inl a ↦
        rw (t, a) (bind-cases (second (fields line)) (λ v. (total, v)) (second-cases (fields line)))
    | inr a ↦ rw (t, a) (inl ((total, available), refl, refl))
  ]
]

-- What take_lines gives, and which lines it has passed.
abbrev LinesPass : List Bytes → Result Panic (Bytes × Bytes) → Type 0
LinesPass lines r =
    ((found : Bytes × Bytes) × (r ≡ ok found) × (Any LacksValue lines → ⊥))
    ⊎ ((r ≡ err index_out_of_range) × Any LacksValue lines)

take_lines-cases :
    (lines : List Bytes) (found : Bytes × Bytes) → LinesPass lines (take_lines lines found)
unfolding take_lines
take_lines-cases [] found = inl (found, refl, λ h. h)
take_lines-cases (line ∷ lines) found = elim (take_line-cases line found) [
  | inl (found', e, h) ↦ rw e (pass h (take_lines-cases lines found'))
  | inr (e, h) ↦ rw e (inr (refl, inl (record { lacks = h })))
]
  where
    pass :
        {r : Result Panic (Bytes × Bytes)}
        → lacks_value line ≡ false
        → LinesPass lines r
        → LinesPass (line ∷ lines) r
    pass h (inl (f, e, none_lacks)) =
        inl (f, e, elim [ inl here ↦ cc (here.lacks, h) | inr later ↦ none_lacks later ])
    pass h (inr (e, some_lacks)) = inr (e, inr some_lacks)

memory_read-panics :
    (m : Machine) (o : Option Bytes)
    → ((memory_read m o ≡ err index_out_of_range)
        ↔ ((text : Bytes) × (o ≡ some text) × Any LacksValue (split text b'\n')))
unfolding memory_read
memory_read-panics m none = (λ h. absurd (err-ne-ok (sym h)), λ r. absurd (none-ne-some r.0 r.1))
memory_read-panics m (some text) = elim (take_lines-cases (split text b'\n') ([], [])) [
  | inl (found, e, none_lacks) ↦ (
    λ h. absurd (err-ne-ok (sym h ∙ ap (λ r. r >>= λ f. ok (memory_found m f)) e)),
    λ r.
        absurd
          (none_lacks (subst (λ t. Any LacksValue (split t b'\n')) (sym (eq_of_some r.1)) r.2)),
  )
  | inr (e, some_lacks) ↦
      (λ h. (text, refl, some_lacks), λ r. ap (λ r. r >>= λ f. ok (memory_found m f)) e)
]

file_on-some :
    (m : Machine) (name text : Bytes)
    → file_on m name ≡ some text
    → (m.is_linux ≡ true) × (m.read_file name ≡ some text)
unfolding file_on
file_on-some m name text h = ground arith

file_on_linux :
    (m : Machine) (name text : Bytes)
    → m.is_linux ≡ true
    → m.read_file name ≡ some text
    → file_on m name ≡ some text
unfolding file_on
file_on_linux m name text l h = rw l h

get_memory_info_panics :
    (m : Machine) → ((get_memory_info m ≡ err index_out_of_range) ↔ IsMalformed m)
unfolding get_memory_info
get_memory_info_panics m =
    let read = memory_read-panics m (file_on m (codes "/proc/meminfo")) in
    (
      λ h.
          (let (text, e, line) = read.0 h in
            let (l, r) = file_on-some m (codes "/proc/meminfo") text e in
            record { text = text; linux = l; read = r; line = line }),
      λ h. read.1 (h.text, file_on_linux m (codes "/proc/meminfo") h.text h.linux h.read, h.line),
    )

bind-panics :
    {A B : Type 0} (r : Result Panic A) (f : A → B)
    → (((r >>= λ a. ok (f a)) ≡ err index_out_of_range) ↔ (r ≡ err index_out_of_range))
bind-panics (ok a) f = (λ h. absurd (err-ne-ok (sym h)), λ h. absurd (err-ne-ok (sym h)))
bind-panics (err index_out_of_range) f = (λ h. refl, λ h. refl)

-- On every request the home page and the statistics both panic, instead of answering, exactly if the
-- machine is a Linux machine whose /proc/meminfo has a line that begins with MemTotal: or
-- MemAvailable: and has fewer than two fields.
pub home_handler_panics :
    (m : Machine) (start now : ℕ) (s : State) (cookie : Option Bytes)
    → ((home_handler m start now s cookie ≡ err index_out_of_range) ↔ IsMalformed m)
      × ((api_stats_handler m start now s ≡ err index_out_of_range) ↔ IsMalformed m)
unfolding home_handler api_stats_handler
home_handler_panics m start now s cookie =
    (through (bind-panics (get_memory_info m) _), through (bind-panics (get_memory_info m) _))
  where
    through :
        {A : Type 0} {r : Result Panic A}
        → ((r ≡ err index_out_of_range) ↔ (get_memory_info m ≡ err index_out_of_range))
        → ((r ≡ err index_out_of_range) ↔ IsMalformed m)
    through i =
        (λ h. (get_memory_info_panics m).0 (i.0 h), λ h. i.1 ((get_memory_info_panics m).1 h))
