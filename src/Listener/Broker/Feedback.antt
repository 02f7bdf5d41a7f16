-- ===== src/Listener/Broker/Feedback.antt =====
-- The listener's answer on the base topic comes back to it.
use mqtt_home_automation.Base.{
  ℕ, ◌≡◌, ◌≢◌, refl, Bool, true, false, List, [], ◌∷◌, ◌++◌, some, arith, All,
}
use mqtt_home_automation.Base.Result.{ok}
use mqtt_home_automation.Text.{Bytes, codes, str_eq}
use mqtt_home_automation.Text.Equality.{str_eq_refl}
use mqtt_home_automation.Maps.{lookup, keys}
use mqtt_home_automation.Listener.Config.{Config}
use mqtt_home_automation.Listener.Handle.{
  Exit, status_response, run_named, handle_message, subscribe_topics,
}
use mqtt_home_automation.Listener.Handle.Below.{below_base}
use mqtt_home_automation.Listener.Main.{Outside, Listening, main}
use mqtt_home_automation.Listener.Main.Topics.{main-topics}
use mqtt_home_automation.Listener.Broker.{is_delivered, echoes, deliver, deliver_all}

-- MQTT's wildcard for one level: `base/+` matches `base/level`.
abbrev pub MatchesLevel : (Bytes → Bytes → Bool) → Type 0
MatchesLevel matches =
    (base level : Bytes)
    → All (λ c. c ≢ b'/') level
    → matches (base ++ codes "/+") (base ++ (codes "/" ++ level)) ≡ true

module _ (exec : List Bytes → Bytes × Exit) (config : Config)
    (xml : str_eq config.config_file [] ≡ false) (now : Bytes) where
  base_message : handle_message exec config now config.topic ≡ record {
    executed = [];
    reply = some (
      config.topic ++ codes "/status",
      status_response (codes "listening") (keys config.commands) now,
    );
  }
  unfolding handle_message
  base_message = rw (xml, str_eq_refl config.topic) refl

pub is_delivered-level :
    (matches : Bytes → Bytes → Bool) (config : Config) (name : Bytes)
    → MatchesLevel matches
    → str_eq config.config_file [] ≡ false
    → All (λ c. c ≢ b'/') name
    → is_delivered matches (subscribe_topics config) (config.topic ++ (codes "/" ++ name)) ≡ true
unfolding is_delivered subscribe_topics
is_delivered-level matches config name level xml is_level =
    rw xml (ground (arith, level config.topic name is_level))

-- If MQTT's wildcard for one level matches every level: once main listens with a file of commands,
-- and the broker takes what is published on the status topic, a message on the base topic leads to
-- two reactions. The first runs nothing and answers the status. The second is the one to a request
-- for a command named "status": if the file has one, it is run, and if not, an error is published.
pub status_query_runs :
    (o : Outside) (exec : List Bytes → Bytes × Exit) (matches : Bytes → Bytes → Bool)
    (publishes : Bytes → Bool) (clock : ℕ → Bytes) (flags : Config) {l : Listening}
    → MatchesLevel matches
    → main o flags ≡ ok l
    → str_eq l.config.config_file [] ≡ false
    → publishes (l.config.topic ++ codes "/status") ≡ true
    → (deliver_all matches publishes exec clock 2 l
        (record { waiting = l.config.topic ∷ []; reactions = [] })).reactions
      ≡ record {
        executed = [];
        reply = some (
          l.config.topic ++ codes "/status",
          status_response (codes "listening") (keys l.config.commands) (clock 0),
        );
      }
        ∷ run_named exec l.config
            (l.config.topic ++ codes "/status")
            (codes "status")
            (lookup (codes "status") l.config.commands)
        ∷ []
unfolding deliver_all deliver echoes
status_query_runs o exec matches publishes clock flags {l = l} level starts xml takes =
    let back : is_delivered matches l.topics (l.config.topic ++ codes "/status") ≡ true =
      rw (main-topics o flags starts)
        (is_delivered-level matches l.config (codes "status") level xml (omega arith)) in
    rw
      (
        base_message exec l.config xml (clock 0),
        takes,
        back,
        below_base exec l.config xml (clock 1) (codes "status"),
      )
      refl
