-- ===== src/Home/Local/Rows.antt =====
-- The rows of a table, its columns padded with blanks, as split_blanks reads them.
use mqtt_home_automation.Base.{
  ℕ, zero, suc, ◌≡◌, refl, ap, sym, ◌∙◌, false, List, [], ◌∷◌, ◌++◌, map, All, append_assoc,
  append-nil, All-append, arith, ◌≢◌,
}
use mqtt_home_automation.Text.{Bytes}
use mqtt_home_automation.Home.Local.{is_blank, pieces, split_blanks, starts_blank}

-- A word: no blank is in it, and something is.
pub record IsWord (w : Bytes) : Type 0 where
  pub first : ℕ
  pub rest : Bytes
  pub filled : w ≡ first ∷ rest
  pub plain : All (λ c. is_blank c ≡ false) w

-- n spaces
pub pad : ℕ → Bytes → Bytes
pad zero s = s
pad (suc n) s = 32 ∷ pad n s

-- A name, and words with some spaces, at least one, before each.
pub print_row : Bytes → List (ℕ × Bytes) → Bytes
unfolding pad
print_row name [] = name
print_row name ((n, w) ∷ ws) = name ++ pad (suc n) (print_row w ws)

pieces-word :
    (w u s : Bytes) → All (λ c. is_blank c ≡ false) u → pieces w (u ++ s) ≡ pieces (w ++ u) s
unfolding pieces
pieces-word w [] s h = ap (λ v. pieces v s) (sym (append-nil w))
pieces-word w (c ∷ u) s (hc, h) =
    rw hc (pieces-word (w ++ c ∷ []) u s h ∙ ap (λ v. pieces v s) (append_assoc w (c ∷ []) u))

pieces-pad :
    (n : ℕ) (w s : Bytes) → starts_blank s ≡ false → pieces w (pad (suc n) s) ≡ w ∷ pieces [] s
unfolding pieces pad is_blank starts_blank
pieces-pad zero w s h = rw h refl
pieces-pad (suc n) w s h = pieces-pad n w s h

cons-ne-nil : {c : ℕ} {s : Bytes} → ◌≡◌ {A = Bytes} (c ∷ s) [] → ⊥
cons-ne-nil h = cc

starts_blank_word : (w s : Bytes) → IsWord w → starts_blank (w ++ s) ≡ false
unfolding starts_blank
starts_blank_word [] s h = absurd (cons-ne-nil (sym h.filled))
starts_blank_word (c ∷ w) s h = h.plain.0

starts_blank-print_row :
    (w : Bytes) (ws : List (ℕ × Bytes)) → IsWord w → starts_blank (print_row w ws) ≡ false
unfolding print_row
starts_blank-print_row w [] h = ap starts_blank (sym (append-nil w)) ∙ starts_blank_word w [] h
starts_blank-print_row w ((n, v) ∷ ws) h = starts_blank_word w (pad (suc n) (print_row v ws)) h

-- A row is read as its words.
pub split_blanks-print_row :
    (name : Bytes) (ws : List (ℕ × Bytes))
    → IsWord name
    → All (λ w. IsWord w.1) ws
    → split_blanks (print_row name ws) ≡ name ∷ map (λ w. w.1) ws
unfolding split_blanks print_row
split_blanks-print_row name [] h hs =
    ap (pieces []) (sym (append-nil name)) ∙ pieces-word [] name [] h.plain ∙ unfold pieces in refl
split_blanks-print_row name ((n, w) ∷ ws) h (hw, hs) =
    pieces-word [] name (pad (suc n) (print_row w ws)) h.plain
    ∙ pieces-pad n name (print_row w ws) (starts_blank-print_row w ws hw)
    ∙ ap (λ p. name ∷ p) (split_blanks-print_row w ws hw hs)

not_newline : (c : ℕ) → is_blank c ≡ false → c ≢ b'\n'
unfolding is_blank
not_newline c h = λ e. ground arith

word-plain : (w : Bytes) → All (λ c. is_blank c ≡ false) w → All (λ c. c ≢ b'\n') w
word-plain [] h = tt
word-plain (c ∷ w) (hc, h) = (not_newline c hc, word-plain w h)

pad-plain : (n : ℕ) (s : Bytes) → All (λ c. c ≢ b'\n') s → All (λ c. c ≢ b'\n') (pad n s)
unfolding pad
pad-plain zero s h = h
pad-plain (suc n) s h = (λ e. ground arith, pad-plain n s h)

-- A row is one line.
pub print_row-plain :
    (name : Bytes) (ws : List (ℕ × Bytes))
    → IsWord name
    → All (λ w. IsWord w.1) ws
    → All (λ c. c ≢ b'\n') (print_row name ws)
unfolding print_row
print_row-plain name [] h hs = word-plain name h.plain
print_row-plain name ((n, w) ∷ ws) h (hw, hs) =
    All-append (λ c. c ≢ b'\n') name (pad (suc n) (print_row w ws)) (word-plain name h.plain)
      (pad-plain (suc n) (print_row w ws) (print_row-plain w ws hw hs))
