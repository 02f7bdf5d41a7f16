-- ===== src/Listener/Main/Topics.antt =====
-- What the connect handler subscribes to, from main on.
use mqtt_home_automation.Base.{◌≡◌, sym, ap, subst, ◌∙◌, List, [], ◌∷◌, Option-cases, inl, inr}
use mqtt_home_automation.Base.Result.{ok, ok-injective, err-ne-ok, bind-ok}
use mqtt_home_automation.Text.{Bytes}
use mqtt_home_automation.Listener.Config.{Config, check_args, parse_broker_url}
use mqtt_home_automation.Listener.Handle.{subscribe_topics}
use mqtt_home_automation.Listener.Main.{
  Outside, Listening, or_fatal, load_commands, with_client_id, usage, bad_broker, connect,
  subscribe_all, listen, run_loaded, main,
}

module _ (o : Outside) where
  subscribe_all-ok :
      (topics : List Bytes) {done : List Bytes} → subscribe_all o topics ≡ ok done → done ≡ topics
  unfolding subscribe_all
  subscribe_all-ok [] h = sym (ok-injective h)
  subscribe_all-ok (topic ∷ topics) h = elim (Option-cases (o.subscribe_error topic)) [
    | inr (e, fails) ↦ absurd (err-ne-ok (rw (subscribe_all, fails) at h))
    | inl fine ↦
        let (rest, subscribed, e) =
          bind-ok (subscribe_all o topics) _ (rw (subscribe_all, fine) at h) in
        sym (ok-injective e) ∙ ap (λ ts. topic ∷ ts) (subscribe_all-ok topics subscribed)
  ]

  listen-topics :
      (loaded : Config) (broker topic : Bytes) {l : Listening}
      → listen o loaded (broker, topic) ≡ ok l
      → l.topics ≡ subscribe_topics l.config
  unfolding listen
  listen-topics loaded broker topic h =
      let (c, is_connected, h1) = bind-ok (connect o) _ h in
      let config = with_client_id o (record loaded { topic = topic }) in
      let (topics, are_subscribed, h2) = bind-ok (subscribe_all o (subscribe_topics config)) _ h1 in
      subst (λ l. l.topics ≡ subscribe_topics l.config) (ok-injective h2)
        (subscribe_all-ok (subscribe_topics config) are_subscribed)

  -- Once main listens, it is subscribed to exactly the topics of its configuration.
  pub main-topics :
      (flags : Config) {l : Listening} → main o flags ≡ ok l → l.topics ≡ subscribe_topics l.config
  unfolding main run_loaded
  main-topics flags h =
      let (checked, is_checked, h1) = bind-ok (or_fatal usage (check_args flags)) _ h in
      let (loaded, is_loaded, h2) = bind-ok (load_commands o checked) _ h1 in
      let (parsed, is_parsed, h3) =
        bind-ok (or_fatal bad_broker (parse_broker_url (o.parse_url loaded.broker_url))) _ h2 in
      listen-topics loaded parsed.0 parsed.1 h3
