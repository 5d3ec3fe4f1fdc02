-- ===== src/Alerting/Notify/Payload.antt =====
-- What a receiver of the payload of src/alerting/notify.rs reads back.
use homeserver_rust.Prelude.{
  ◌≡◌, refl, ◌∙◌, ap, String, List, [], ◌∷◌, Option, none, some, ◌=s=◌, if◌then◌else◌,
}
use homeserver_rust.Prelude.Options.{◌>>=◌}
use homeserver_rust.Prelude.Entries.{lookup}
use homeserver_rust.Alerting.Engine.{AlertState, firing, resolved, AlertEvent}
use homeserver_rust.Alerting.Notify.{JsonValues, Post, new, state_text, payload, posts, notify}

-- How a receiver reads a JSON value: the member of an object, a text and a number.
pub record Reader (V F : Type 0) : Type 0 where
  pub index : V → String → V
  pub as_str : V → Option String
  pub as_f64 : V → Option F

-- A receiver reads what was written; of the numbers, those that are finite, since JSON has no others.
pub record IsReaderOf {V F : Type 0} (IsFinite : F → Type 0) (reader : Reader V F)
    (values : JsonValues V F) : Type 0 where
  pub member :
      (fields : List (String × V)) (k : String) (v : V)
      → lookup fields k ≡ some v
      → reader.index (values.object fields) k ≡ v
  pub text : (s : String) → reader.as_str (values.of_str s) ≡ some s
  pub number : (x : F) → IsFinite x → reader.as_f64 (values.of_f64 x) ≡ some x

abbrev pub state_of : String → Option AlertState
state_of s =
    if s =s= "firing" then some firing else if s =s= "resolved" then some resolved else none

module _ {V F : Type 0} (reader : Reader V F) where
  -- The event of a payload.
  abbrev pub read_event : V → Option (AlertEvent F)
  read_event v = do
    rule ← reader.as_str (reader.index v "rule")
    metric ← reader.as_str (reader.index v "metric")
    op ← reader.as_str (reader.index v "op")
    value ← reader.as_f64 (reader.index v "value")
    threshold ← reader.as_f64 (reader.index v "threshold")
    text ← reader.as_str (reader.index v "state")
    state ← state_of text
    some (record {
      rule_name = rule;
      metric = metric;
      op = op;
      value = value;
      threshold = threshold;
      state = state;
    })

  -- No request without a webhook, and one with it, from which the event can be read.
  abbrev pub Posted : {C : Type 0} → C → Option String → AlertEvent F → List (Post C V) → Type 0
  Posted client none ev sent = sent ≡ []
  Posted client (some url) ev sent =
      (body : V) × (sent ≡ record { client = client; url = url; json = body } ∷ [])
      × (read_event body ≡ some ev)

state_of-text : (s : AlertState) → state_of (state_text s) ≡ some s
unfolding state_text
state_of-text firing = refl
state_of-text resolved = refl

module _ {V F : Type 0} (IsFinite : F → Type 0) (reader : Reader V F) (values : JsonValues V F)
    (reads : IsReaderOf IsFinite reader values) where
  -- The member of an object that is a text, or a finite number.
  text_member :
      (fields : List (String × V)) (k s : String)
      → lookup fields k ≡ some (values.of_str s)
      → reader.as_str (reader.index (values.object fields) k) ≡ some s
  text_member fields k s h = ap reader.as_str (reads.member fields k _ h) ∙ reads.text s

  number_member :
      (fields : List (String × V)) (k : String) (x : F)
      → IsFinite x
      → lookup fields k ≡ some (values.of_f64 x)
      → reader.as_f64 (reader.index (values.object fields) k) ≡ some x
  number_member fields k x finite h =
      ap reader.as_f64 (reads.member fields k _ h) ∙ reads.number x finite

  pub read_event-payload :
      (ev : AlertEvent F)
      → IsFinite ev.value
      → IsFinite ev.threshold
      → read_event reader (payload values ev) ≡ some ev
  unfolding payload lookup
  read_event-payload ev value threshold =
      rw
        (
          text_member _ "rule" ev.rule_name refl,
          text_member _ "metric" ev.metric refl,
          text_member _ "op" ev.op refl,
          number_member _ "value" ev.value value refl,
          number_member _ "threshold" ev.threshold threshold refl,
          text_member _ "state" (state_text ev.state) refl,
          state_of-text ev.state,
        )
        refl

  -- If a receiver reads what is written, and the numbers of the event are finite: without a webhook
  -- nothing is posted, and with one there is one request, to its URL and with the client made at the
  -- start, from whose body the whole event can be read back.
  pub notify-Posted :
      {C : Type 0} (client : C) (webhook_url : Option String) (ev : AlertEvent F)
      → IsFinite ev.value
      → IsFinite ev.threshold
      → Posted reader client webhook_url ev (notify values (new client webhook_url) ev)
  unfolding notify posts new
  notify-Posted client none ev value threshold = refl
  notify-Posted client (some url) ev value threshold =
      (payload values ev, refl, read_event-payload ev value threshold)
