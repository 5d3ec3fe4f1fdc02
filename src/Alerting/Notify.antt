-- ===== src/Alerting/Notify.antt =====
-- src/alerting/notify.rs: an event is posted as JSON where a webhook is configured. It is also
-- logged, which changes nothing. `reqwest::Client` is a parameter `C`, and `serde_json::Value` a
-- parameter `V` with the constructors that the payload uses.
pub mod Payload
use homeserver_rust.Prelude.{String, List, [], ◌∷◌, Option, none, some}
use homeserver_rust.Alerting.Engine.{AlertState, firing, resolved, AlertEvent}

-- `serde_json::json!` on an object, a text and an `f64`.
pub record JsonValues (V F : Type 0) : Type 0 where
  pub object : List (String × V) → V
  pub of_str : String → V
  pub of_f64 : F → V

pub record Notifier (C : Type 0) : Type 0 where
  pub client : Option C
  pub webhook_url : Option String

-- A request that `send` makes. Its failure is only logged.
pub record Post (C V : Type 0) : Type 0 where
  pub client : C
  pub url : String
  pub json : V

-- `webhook_url.as_ref().map(|_| reqwest::Client::new())`
abbrev client_for : {C : Type 0} → C → Option String → Option C
client_for new_client none = none
client_for new_client (some url) = some new_client

unfoldable pub new : {C : Type 0} → C → Option String → Notifier C
new new_client webhook_url = record {
  client = client_for new_client webhook_url;
  webhook_url = webhook_url;
}

unfoldable pub state_text : AlertState → String
state_text firing = "firing"
state_text resolved = "resolved"

module _ {V F : Type 0} (values : JsonValues V F) where
  unfoldable pub payload : AlertEvent F → V
  unfolding state_text
  payload ev = values.object (
      ("rule", values.of_str ev.rule_name)
      ∷ ("metric", values.of_str ev.metric)
      ∷ ("op", values.of_str ev.op)
      ∷ ("value", values.of_f64 ev.value)
      ∷ ("threshold", values.of_f64 ev.threshold)
      ∷ ("state", values.of_str (state_text ev.state))
      ∷ [])

  -- `if let (Some(client), Some(url))`
  unfoldable pub posts : {C : Type 0} → Option C → Option String → AlertEvent F → List (Post C V)
  unfolding payload
  posts none url ev = []
  posts (some client) none ev = []
  posts (some client) (some url) ev = record { client = client; url = url; json = payload ev } ∷ []

  unfoldable pub notify : {C : Type 0} → Notifier C → AlertEvent F → List (Post C V)
  unfolding posts
  notify notifier ev = posts notifier.client notifier.webhook_url ev
