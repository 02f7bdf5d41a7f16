-- ===== src/Examples/Filters.antt =====
-- A concrete matching of the topic filters that cmd/mqtt_listener subscribes to, as MQTT documents it.
use mqtt_home_automation.Base.{
  ◌≡◌, ◌≢◌, All, if◌then◌else◌, refl, Bool, true, false, not, ◌&&◌, [], ◌∷◌, ◌++◌, arith, ◌==◌,
}
use mqtt_home_automation.Text.{Bytes, codes}
use mqtt_home_automation.Listener.Broker.Feedback.{MatchesLevel}
use mqtt_home_automation.Listener.Broker.Delivered.{IsPlain, MatchesMqtt}

unfoldable pub no_slash : Bytes → Bool
no_slash [] = true
no_slash (c ∷ s) = not (c == b'/') && no_slash s

unfoldable pub is_end : Bytes → Bool
is_end [] = true
is_end (c ∷ s) = false

-- The filters that MQTT's listener subscribes to: a level at the end may be any.
unfoldable pub matches : Bytes → Bytes → Bool
matches [] [] = true
matches [] (d ∷ t) = false
matches (c ∷ f) [] = (c == b'+') && is_end f
matches (c ∷ f) (d ∷ t) =
    let rest = matches f t in if (c == b'+') && is_end f then no_slash (d ∷ t) else (c == d) && rest

no_slash-All : (s : Bytes) → All (λ c. c ≢ b'/') s → no_slash s ≡ true
unfolding no_slash
no_slash-All [] h = refl
no_slash-All (c ∷ s) (hc, h) = ground (arith, no_slash-All s h)

matches_any : (level : Bytes) → All (λ c. c ≢ b'/') level → matches (codes "+") level ≡ true
unfolding matches is_end
matches_any [] h = refl
matches_any (c ∷ s) h = no_slash-All (c ∷ s) h

is_end-filter : (base : Bytes) → is_end (base ++ codes "/+") ≡ false
unfolding is_end
is_end-filter [] = refl
is_end-filter (c ∷ base) = refl

pub matches-MatchesLevel : MatchesLevel matches
unfolding matches is_end
matches-MatchesLevel [] level h = matches_any level h
matches-MatchesLevel (c ∷ base) level h =
    ground (arith, is_end-filter base, matches-MatchesLevel base level h)

matches-plain :
    (filter topic : Bytes) → IsPlain filter → matches filter topic ≡ true → topic ≡ filter
unfolding matches
matches-plain [] [] h e = refl
matches-plain [] (d ∷ t) h e = absurd (cc e)
matches-plain (c ∷ f) [] ((plus, hash), h) e = ground (arith, plus)
matches-plain (c ∷ f) (d ∷ t) ((plus, hash), h) e =
    let (same, rest) : ((c == d) ≡ true) × (matches f t ≡ true) = ground (arith, e, plus) in
    let tails = matches-plain f t h rest in
    let heads : d ≡ c = ground (arith, same) in rw (heads, tails) refl

All-no_slash : (s : Bytes) → no_slash s ≡ true → All (λ c. c ≢ b'/') s
unfolding no_slash
All-no_slash [] h = tt
All-no_slash (c ∷ s) h =
    let (first, rest) : (c ≢ b'/') × (no_slash s ≡ true) = ground (arith, h) in
    (first, All-no_slash s rest)

any_level : (t : Bytes) → matches (codes "+") t ≡ true → no_slash t ≡ true
unfolding matches is_end no_slash
any_level [] e = refl
any_level (d ∷ t) e = e

matches-one_level :
    (base topic : Bytes)
    → IsPlain base
    → matches (base ++ codes "/+") topic ≡ true
    → (level : Bytes) × (topic ≡ base ++ (codes "/" ++ level)) × All (λ c. c ≢ b'/') level
unfolding matches is_end
matches-one_level [] [] h e = ground (arith, e)
matches-one_level [] (d ∷ t) h e =
    let (same, rest) : ((b'/' == d) ≡ true) × (matches (codes "+") t ≡ true) = ground (arith, e) in
    let heads : d ≡ b'/' = ground (arith, same) in
    (t, rw heads refl, All-no_slash t (any_level t rest))
matches-one_level (c ∷ base) [] ((plus, hash), h) e = ground (arith, e, plus)
matches-one_level (c ∷ base) (d ∷ t) ((plus, hash), h) e =
    let (same, rest) : ((c == d) ≡ true) × (matches (base ++ codes "/+") t ≡ true) =
      ground (arith, e, plus) in
    let heads : d ≡ c = ground (arith, same) in
    let (level, split, is_level) = matches-one_level base t h rest in
    (level, rw (heads, split) refl, is_level)

pub matches-MatchesMqtt : MatchesMqtt matches
matches-MatchesMqtt = record { plain = matches-plain; one_level = matches-one_level }
