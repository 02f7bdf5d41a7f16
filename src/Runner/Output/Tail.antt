-- ===== src/Runner/Output/Tail.antt =====
-- The output kept is the end of all output.
use mqtt_home_automation.Base.{
  ℕ, ◌+◌, ◌-◌, ◌≡◌, refl, ap, sym, ◌∙◌, List, [], ◌∷◌, ◌++◌, append-nil, append_assoc, arith,
  length, length-append, length-drop, drop, drop-append_left, drop-drop, ltb, Bool-cases, inl, inr,
}
use mqtt_home_automation.Text.{Bytes}
use mqtt_home_automation.Maps.{GoMap, insert}
use mqtt_home_automation.Maps.Laws.{lookup-insert_self}
use mqtt_home_automation.Runner.State.{State}
use mqtt_home_automation.Runner.Output.{
  latest, max_output_size, text_at, cut_output, append_output, get_latest_output,
}

-- The last n bytes of a text, or all of it.
abbrev pub last_bytes : ℕ → Bytes → Bytes
last_bytes n s = drop (length s - n) s

pub cut_output-last_bytes : (s : Bytes) → cut_output s ≡ last_bytes max_output_size s
unfolding cut_output
cut_output-last_bytes s = elim (Bool-cases (ltb max_output_size (length s))) [
  | inl e ↦ rw e
  | inr e ↦ let z : length s - max_output_size ≡ 0 = ground arith in rw (e, z)
]

-- Cutting before more text comes makes no difference to the cut behind it.
pub last_bytes-append :
    (n : ℕ) (s t : Bytes) → last_bytes n (last_bytes n s ++ t) ≡ last_bytes n (s ++ t)
last_bytes-append n s t =
    let k = length s - n in
    let joined : drop k s ++ t ≡ drop k (s ++ t) = sym (drop-append_left k s t (omega arith)) in
    let count : k + (length (drop k (s ++ t)) - n) ≡ length (s ++ t) - n =
      omega (arith, length-drop k (s ++ t), length-append s t) in
    rw joined
      (drop-drop (length (drop k (s ++ t)) - n) k (s ++ t) ∙ ap (λ (i : ℕ). drop i (s ++ t)) count)

text_at-insert : (v : Bytes) (m : GoMap Bytes) → text_at latest (insert latest v m) ≡ v
unfolding text_at
text_at-insert v m = rw (lookup-insert_self latest v m, text_at) refl

pub text_at-append_output :
    (text : Bytes) (s : State)
    → text_at latest (append_output text s).command_outputs
      ≡ last_bytes max_output_size (text_at latest s.command_outputs ++ text)
unfolding append_output
text_at-append_output text s =
    text_at-insert (cut_output (text_at latest s.command_outputs ++ text)) s.command_outputs
    ∙ cut_output-last_bytes (text_at latest s.command_outputs ++ text)

-- The texts of a run, appended one after the other.
abbrev pub append_all : List Bytes → State → State
append_all [] s = s
append_all (t ∷ ts) s = append_all ts (append_output t s)

abbrev all_text : List Bytes → Bytes
all_text [] = []
all_text (t ∷ ts) = t ++ all_text ts

-- If the output kept is the last 10240 bytes of a history, or all of a shorter one, then after any
-- texts it is the last 10240 bytes of the history with these texts behind it, or all of that.
pub append_output_history :
    (ts : List Bytes) (history : Bytes) (s : State)
    → text_at latest s.command_outputs ≡ last_bytes max_output_size history
    → text_at latest (append_all ts s).command_outputs
      ≡ last_bytes max_output_size (history ++ all_text ts)
append_output_history [] history s h =
    h ∙ ap (last_bytes max_output_size) (sym (append-nil history))
append_output_history (t ∷ ts) history s h =
    append_output_history ts (history ++ t) (append_output t s) (
      text_at-append_output t s
      ∙ ap (λ (x : Bytes). last_bytes max_output_size (x ++ t)) h
      ∙ last_bytes-append max_output_size history t)
    ∙ ap (last_bytes max_output_size) (append_assoc history t (all_text ts))

-- The page shows the output kept as soon as there was any.
get_latest_output-append_output :
    (text : Bytes) (s : State)
    → get_latest_output (append_output text s)
      ≡ last_bytes max_output_size (text_at latest s.command_outputs ++ text)
unfolding get_latest_output append_output
get_latest_output-append_output text s =
    rw
      (
        lookup-insert_self latest (cut_output (text_at latest s.command_outputs ++ text))
            s.command_outputs,
        get_latest_output,
      )
      (cut_output-last_bytes (text_at latest s.command_outputs ++ text))
