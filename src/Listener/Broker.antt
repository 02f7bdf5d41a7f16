-- ===== src/Listener/Broker.antt =====
-- The listener of cmd/mqtt_listener/main.go with the broker that it publishes to: an answer on a topic
-- that the listener is subscribed to comes back as a message. The broker is a queue of topics; how it
-- matches filters and which publications it takes are parameters, as are programs and the clock.
pub mod Delivered
pub mod Feedback
pub mod Settles
use mqtt_home_automation.Base.{
  ℕ, zero, suc, Bool, false, ◌||◌, ◌&&◌, List, [], ◌∷◌, ◌++◌, Option, none, some, if◌then◌else◌,
  length,
}
use mqtt_home_automation.Text.{Bytes}
use mqtt_home_automation.Listener.Handle.{Exit, Response, Reaction, handle_message}
use mqtt_home_automation.Listener.Main.{Listening}

-- The messages that wait for the listener, and what the ones before them led to.
pub record Session : Type 0 where
  pub waiting : List Bytes
  pub reactions : List Reaction

module _ (matches : Bytes → Bytes → Bool) where
  -- Some filter of the subscriptions matches the topic.
  unfoldable pub is_delivered : List Bytes → Bytes → Bool
  is_delivered [] topic = false
  is_delivered (f ∷ fs) topic = matches f topic || is_delivered fs topic

  -- The messages that an answer makes for the listener itself.
  unfoldable pub echoes : (Bytes → Bool) → List Bytes → Option (Bytes × Response) → List Bytes
  unfolding is_delivered
  echoes publishes filters none = []
  echoes publishes filters (some (topic, response)) =
      if publishes topic && is_delivered filters topic then topic ∷ [] else []

  -- The handler of the subscriptions gets the first message that waits.
  unfoldable pub deliver :
      (Bytes → Bool)
      → (List Bytes → Bytes × Exit)
      → (ℕ → Bytes)
      → Listening
      → List Bytes
      → List Reaction
      → Session
  unfolding echoes
  deliver publishes exec clock l [] past = record { waiting = []; reactions = past }
  deliver publishes exec clock l (topic ∷ rest) past =
      let reaction = handle_message exec l.config (clock (length past)) topic in
      record {
        waiting = rest ++ echoes publishes l.topics reaction.reply;
        reactions = past ++ reaction ∷ [];
      }

  unfoldable pub deliver_all :
      (Bytes → Bool) → (List Bytes → Bytes × Exit) → (ℕ → Bytes) → ℕ → Listening → Session → Session
  unfolding deliver
  deliver_all publishes exec clock zero l s = s
  deliver_all publishes exec clock (suc rounds) l s =
      deliver_all publishes exec clock rounds l
        (deliver publishes exec clock l s.waiting s.reactions)
