-- ===== src/Listener/Broker/Delivered.antt =====
-- Which messages the subscriptions of the listener bring, and that it answers each.
use mqtt_home_automation.Base.{
  ◌≡◌, ◌≢◌, refl, sym, ◌∙◌, subst, Bool, true, false, List, [], ◌∷◌, ◌++◌, append_assoc, none, some,
  All, inl, inr, Bool-cases, Option,
}
use mathlib.Core.List.{append_cancel_left}
use mqtt_home_automation.Text.{Bytes, codes, str_eq, has_prefix}
use mqtt_home_automation.Text.Equality.{longer, has_prefix-append, str_eq_refl, str_eq-false}
use mqtt_home_automation.Maps.{lookup}
use mqtt_home_automation.Listener.Config.{Config}
use mqtt_home_automation.Listener.Handle.{
  Exit, Response, run_named, handle_message, subscribe_topics,
}
use mqtt_home_automation.Listener.Broker.{is_delivered}

-- A topic that no wildcard stands in.
abbrev pub IsPlain : Bytes → Type 0
IsPlain topic = All (λ c. (c ≢ b'+') × (c ≢ b'#')) topic

-- MQTT's topic filters: a plain filter matches itself only, and `base/+` one level below the base.
pub record MatchesMqtt (matches : Bytes → Bytes → Bool) : Type 0 where
  pub plain : (filter topic : Bytes) → IsPlain filter → matches filter topic ≡ true → topic ≡ filter
  pub one_level :
      (base topic : Bytes)
      → IsPlain base
      → matches (base ++ codes "/+") topic ≡ true
      → (level : Bytes) × (topic ≡ base ++ (codes "/" ++ level)) × All (λ c. c ≢ b'/') level

-- A text with a slash in it is no level.
not_level : (s t : Bytes) → All (λ c. c ≢ b'/') (s ++ b'/' ∷ t) → ⊥
not_level [] t (slash, h) = slash refl
not_level (c ∷ s) t (h0, h) = not_level s t h

-- What the subscriptions bring: the base topic, or, with a file of commands, one level below it.
pub data Delivered (config : Config) (topic : Bytes) : Type 0 where
  on_base : topic ≡ config.topic → Delivered config topic
  below :
      (level : Bytes)
      → str_eq config.config_file [] ≡ false
      → topic ≡ config.topic ++ (codes "/" ++ level)
      → All (λ c. c ≢ b'/') level
      → Delivered config topic

named_answer :
    (exec : List Bytes → Bytes × Exit) (config : Config) (topic name : Bytes) (o : Option Bytes)
    → (r : Response) × ((run_named exec config topic name o).reply
        ≡ some (topic ++ codes "/status", r))
unfolding run_named
named_answer exec config topic name (some cmd) = (_, refl)
named_answer exec config topic name none = (_, refl)

module _ (matches : Bytes → Bytes → Bool) (mqtt : MatchesMqtt matches) (config : Config)
    (is_plain : IsPlain config.topic) where
  pub is_delivered-Delivered :
      (topic : Bytes)
      → is_delivered matches (subscribe_topics config) topic ≡ true
      → Delivered config topic
  unfolding is_delivered subscribe_topics
  is_delivered-Delivered topic h = elim (Bool-cases (matches config.topic topic)) [
    | inl e ↦ on_base (mqtt.plain config.topic topic is_plain e)
    | inr e ↦ elim (Bool-cases (str_eq config.config_file [])) [
      | inl legacy ↦ absurd (cc (rw (legacy, e) at h))
      | inr xml ↦ elim (Bool-cases (matches (config.topic ++ codes "/+") topic)) [
        | inl m ↦
            let (level, split, no_slash) = mqtt.one_level config.topic topic is_plain m in
            below level xml split no_slash
        | inr m ↦ absurd (cc (rw (xml, e, m) at h))
      ]
    ]
  ]

  -- The answer to an answer on a level goes nowhere.
  pub Delivered-ends :
      (level : Bytes)
      → is_delivered matches
          (subscribe_topics config)
          ((config.topic ++ (codes "/" ++ level)) ++ codes "/status")
        ≡ false
  Delivered-ends level =
      elim (Bool-cases (
        is_delivered matches (subscribe_topics config)
          ((config.topic ++ (codes "/" ++ level)) ++ codes "/status"))) [
            | inr e ↦ e
            | inl e ↦ absurd (ends (is_delivered-Delivered _ e))
          ]
    where
      ends : Delivered config ((config.topic ++ (codes "/" ++ level)) ++ codes "/status") → ⊥
      ends (on_base e) =
          longer config.topic b'/' (level ++ codes "/status")
            (sym (append_assoc config.topic (codes "/" ++ level) (codes "/status")) ∙ e)
      ends (below other xml e no_slash) =
          not_level level (codes "status") (subst (All (λ c. c ≢ b'/')) same no_slash)
        where
          same : other ≡ level ++ codes "/status"
          same = sym (
              tail_of (
                append_cancel_left config.topic (b'/' ∷ (level ++ codes "/status")) (b'/' ∷ other)
                  (sym (append_assoc config.topic (codes "/" ++ level) (codes "/status")) ∙ e)))
            where
              tail_of :
                  b'/' ∷ (level ++ codes "/status") ≡ b'/' ∷ other
                  → level ++ codes "/status" ≡ other
              tail_of h = cc

  -- Every message that is delivered is answered, on its own topic with "/status" behind.
  pub Delivered-answered :
      (exec : List Bytes → Bytes × Exit) (now topic : Bytes)
      → Delivered config topic
      → (r : Response) × ((handle_message exec config now topic).reply
          ≡ some (topic ++ codes "/status", r))
  unfolding handle_message
  Delivered-answered exec now topic (on_base e) =
      rw e (elim (Bool-cases (str_eq config.config_file [])) [
        | inl legacy ↦ rw legacy (_, refl)
        | inr xml ↦ rw (xml, str_eq_refl config.topic) (_, refl)
      ])
  Delivered-answered exec now topic (below level xml e no_slash) =
      let under : has_prefix topic (config.topic ++ codes "/") ≡ true =
        rw (e, sym (append_assoc config.topic (codes "/") level))
          (has_prefix-append (config.topic ++ codes "/") level) in
      let other : str_eq topic config.topic ≡ false =
        rw e (str_eq-false _ _ (longer config.topic b'/' level)) in
      rw (xml, other, under) (named_answer exec config topic _ (lookup _ config.commands))
