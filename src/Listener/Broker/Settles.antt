-- ===== src/Listener/Broker/Settles.antt =====
-- The answers of the listener to its own answers come to an end.
use mqtt_home_automation.Base.{
  ℕ, zero, suc, ◌+◌, ◌*◌, ◌≤◌, ◌≡◌, ◌⊎◌, refl, sym, subst, Bool, true, List, [], ◌∷◌, ◌++◌, some,
  arith, All, All-append, inl, inr, Bool-cases, length, if◌then◌else◌,
}
use mqtt_home_automation.Text.{Bytes, codes, str_eq}
use mqtt_home_automation.Text.Equality.{longer, str_eq_refl, str_eq-false}
use mqtt_home_automation.Listener.Config.{Config}
use mqtt_home_automation.Listener.Handle.{Exit, Response, Reaction, subscribe_topics}
use mqtt_home_automation.Listener.Main.{ClientOptions, Outside, Listening, main}
use mqtt_home_automation.Listener.Main.Topics.{main-topics}
use mqtt_home_automation.Listener.Broker.{is_delivered, echoes, deliver, deliver_all}
use mqtt_home_automation.Base.Result.{ok}
use mqtt_home_automation.Listener.Broker.Delivered.{
  IsPlain, MatchesMqtt, Delivered, on_base, below, is_delivered-Delivered, Delivered-ends,
  Delivered-answered,
}

-- A topic has at most two messages to come: one on the base topic its answer and the answer to that.
abbrev weight : Bytes → Bytes → ℕ
weight base topic = if str_eq topic base then 2 else 1

abbrev total : Bytes → List Bytes → ℕ
total base [] = 0
total base (t ∷ ts) = weight base t + total base ts

total-append :
    (base : Bytes) (ts us : List Bytes) → total base (ts ++ us) ≡ total base ts + total base us
total-append base [] us = omega arith
total-append base (t ∷ ts) us = let ih = total-append base ts us in omega (arith, ih)

total_le : (base : Bytes) (ts : List Bytes) → total base ts ≤ 2 * length ts
total_le base [] = omega arith
total_le base (t ∷ ts) =
    let ih = total_le base ts in
    elim (Bool-cases (str_eq t base)) [
      | inl e ↦ rw e (omega (arith, ih))
      | inr e ↦ rw e (omega (arith, ih))
    ]

abbrev AllDelivered : (Bytes → Bytes → Bool) → List Bytes → List Bytes → Type 0
AllDelivered matches filters ts = All (λ t. is_delivered matches filters t ≡ true) ts

weight_ge : (base topic : Bytes) → 1 ≤ weight base topic
weight_ge base topic = elim (Bool-cases (str_eq topic base)) [
  | inl e ↦ rw e (omega arith)
  | inr e ↦ rw e (omega arith)
]

module _ (matches : Bytes → Bytes → Bool) (publishes : Bytes → Bool) (filters : List Bytes) where
  -- An answer comes back as one message, if the subscriptions bring it, or not at all.
  echoes-cases :
      (topic : Bytes) (r : Response)
      → ((echoes matches publishes filters (some (topic, r)) ≡ topic ∷ [])
          × (is_delivered matches filters topic ≡ true))
        ⊎ (echoes matches publishes filters (some (topic, r)) ≡ [])
  unfolding echoes
  echoes-cases topic r = elim (Bool-cases (publishes topic)) [
    | inr p ↦ rw p (inr refl)
    | inl p ↦ elim (Bool-cases (is_delivered matches filters topic)) [
      | inl e ↦ rw (e, p) (inl (refl, refl))
      | inr e ↦ rw (e, p) (inr refl)
    ]
  ]

  echoes-AllDelivered :
      (topic : Bytes) (r : Response)
      → AllDelivered matches filters (echoes matches publishes filters (some (topic, r)))
  echoes-AllDelivered topic r = elim (echoes-cases topic r) [
    | inl (e, d) ↦ rw e (d, tt)
    | inr e ↦ rw e tt
  ]

module _ (matches : Bytes → Bytes → Bool) (mqtt : MatchesMqtt matches) (publishes : Bytes → Bool)
    (exec : List Bytes → Bytes × Exit) (config : Config) (is_plain : IsPlain config.topic) where
  -- The answer to a message weighs less than the message.
  lighter :
      (topic : Bytes) (r : Response)
      → Delivered config topic
      → suc (
          total config.topic (
            echoes matches publishes
              (subscribe_topics config)
              (some (topic ++ codes "/status", r))))
        ≤ weight config.topic topic
  lighter topic r d =
      elim (echoes-cases matches publishes (subscribe_topics config) (topic ++ codes "/status") r) [
        | inr e ↦ rw e (weight_ge config.topic topic)
        | inl (e, back) ↦ rw e (once topic d back)
      ]
    where
      once :
          (topic : Bytes)
          → Delivered config topic
          → is_delivered matches (subscribe_topics config) (topic ++ codes "/status") ≡ true
          → suc (weight config.topic (topic ++ codes "/status") + 0) ≤ weight config.topic topic
      once topic (on_base e) back =
          rw
            (
              e,
              str_eq_refl config.topic,
              str_eq-false _ _ (longer config.topic b'/' (codes "status")),
            )
            (omega arith)
      once topic (below level xml e no_slash) back =
          absurd (cc (Delivered-ends matches mqtt config is_plain level, rw e at back))

  module _ (clock : ℕ → Bytes) (options : ClientOptions) where
    abbrev open_listening : Listening
    open_listening = record { options = options; config = config; topics = subscribe_topics config }

    -- With as many rounds as the messages weigh, none is left.
    waiting-deliver_all :
        (rounds : ℕ) (waiting : List Bytes) (past : List Reaction)
        → AllDelivered matches (subscribe_topics config) waiting
        → total config.topic waiting ≤ rounds
        → (deliver_all matches publishes exec clock rounds open_listening
            (record { waiting = waiting; reactions = past })).waiting
          ≡ []
    unfolding deliver_all deliver
    waiting-deliver_all zero [] past all fits = refl
    waiting-deliver_all zero (t ∷ ts) past all fits =
        absurd (omega (arith, weight_ge config.topic t))
    waiting-deliver_all (suc rounds) [] past all fits =
        waiting-deliver_all rounds [] past tt (omega arith)
    waiting-deliver_all (suc rounds) (t ∷ ts) past (h, all) fits =
        let d = is_delivered-Delivered matches mqtt config is_plain t h in
        let (r, e) =
          Delivered-answered matches mqtt config is_plain exec (clock (length past)) t d in
        rw (deliver_all, e)
          (waiting-deliver_all rounds
            (ts
              ++ echoes matches publishes (subscribe_topics config)
                  (some (t ++ codes "/status", r)))
            _
            (All-append (λ t. is_delivered matches (subscribe_topics config) t ≡ true) ts _ all
              (echoes-AllDelivered matches publishes (subscribe_topics config)
                (t ++ codes "/status") r))
            (rw
              (total-append config.topic ts (
                echoes matches publishes (subscribe_topics config)
                  (some (t ++ codes "/status", r))))
              (omega (arith, fits, lighter t r d))))

-- If MQTT's filters match as documented and the base topic has no wildcard in it: once main listens,
-- and whatever messages wait that its subscriptions bring, after twice as many messages handled none
-- waits any more, although the answers are themselves messages that the subscriptions may bring.
pub main_settles :
    (o : Outside) (exec : List Bytes → Bytes × Exit) (matches : Bytes → Bytes → Bool)
    (publishes : Bytes → Bool) (clock : ℕ → Bytes) (flags : Config) {l : Listening}
    (waiting : List Bytes) (past : List Reaction)
    → MatchesMqtt matches
    → main o flags ≡ ok l
    → IsPlain l.config.topic
    → All (λ t. is_delivered matches l.topics t ≡ true) waiting
    → (deliver_all matches publishes exec clock
        (2 * length waiting)
        l
        (record { waiting = waiting; reactions = past })).waiting
      ≡ []
main_settles o exec matches publishes clock flags {l = l} waiting past mqtt starts is_plain all =
    subst
      (λ ts.
        AllDelivered matches ts waiting
        → (deliver_all matches publishes exec clock (2 * length waiting)
            (record { options = l.options; config = l.config; topics = ts })
            (record { waiting = waiting; reactions = past })).waiting
          ≡ [])
      (sym (main-topics o flags starts))
      (λ every.
        waiting-deliver_all matches mqtt publishes exec l.config is_plain clock l.options
          (2 * length waiting) waiting past every (total_le l.config.topic waiting))
      all
