-- ===== src/Routes/Ws/Frames.antt =====
-- What a client of src/routes/ws.rs has been sent.
use mathlib.Core.List.{append_assoc, append-nil}
use homeserver_rust.Prelude.{
  ◌≡◌, refl, sym, ap, subst, ◌∙◌, Bool, true, false, not, ◌&&◌, List, [], ◌∷◌, ◌++◌, Option, none,
  some, String, arith, Bool-cases, inl, inr, if◌then◌else◌,
}
use homeserver_rust.Models.{FullSystemSnapshot}
use homeserver_rust.Routes.Ws.{
  Frame, text, ping, Stream, StreamEvent, send_frame, send_json, is_close, stream_turn,
  stream_turns, stream_system,
}

abbrev pub texts : List Frame → List String
texts [] = []
texts (text json ∷ frames) = json ∷ texts frames
texts (ping ∷ frames) = texts frames

texts-append : (fs gs : List Frame) → texts (fs ++ gs) ≡ texts fs ++ texts gs
texts-append [] gs = refl
texts-append (text json ∷ fs) gs = ap (◌∷◌ json) (texts-append fs gs)
texts-append (ping ∷ fs) gs = texts-append fs gs

abbrev pub json_of : Option String → List String
json_of none = []
json_of (some json) = json ∷ []

frame_sent :
    (st : Stream) (frame : Frame) (sent : Bool)
    → st.running ≡ true
    → ((send_frame st frame sent).running ≡ sent)
      × ((sent ≡ true
            → texts (send_frame st frame sent).frames ≡ texts st.frames ++ texts (frame ∷ []))
          × (sent ≡ false → texts (send_frame st frame sent).frames ≡ texts st.frames))
unfolding send_frame
frame_sent st frame true h =
    (h, (λ _. texts-append st.frames (frame ∷ []), λ no. ground (arith, no)))
frame_sent st frame false h = (refl, (λ yes. ground (arith, yes), λ _. refl))

-- A text that can be serialized and sent in time.
abbrev pub json_goes : Option String → Bool → Bool
json_goes none sent = false
json_goes (some json) sent = sent

json_sent :
    (st : Stream) (json : Option String) (sent : Bool)
    → st.running ≡ true
    → ((send_json st json sent).running ≡ json_goes json sent)
      × ((json_goes json sent ≡ true
            → texts (send_json st json sent).frames ≡ texts st.frames ++ (json_of json ++ []))
          × (json_goes json sent ≡ false → texts (send_json st json sent).frames ≡ texts st.frames))
json_sent st none sent h = (refl, (λ yes. ground (arith, yes), λ _. refl))
json_sent st (some json) sent h = frame_sent st (text json) sent h

-- All of these texts, or these but for some at the end.
abbrev pub Delivered : Bool → List String → List String → Type 0
Delivered true sent all = sent ≡ all
Delivered false sent all = (missing : List String) × (all ≡ sent ++ missing)

module _ {F : Type 0} (to_string : FullSystemSnapshot F → Option String) where
  -- The snapshots that come from the channel, as they are serialized.
  abbrev pub jsons : List (StreamEvent F) → List String
  jsons [] = []
  jsons (StreamEvent.received snapshot sent ∷ events) = json_of (to_string snapshot) ++ jsons events
  jsons (StreamEvent.lagged n ∷ events) = jsons events
  jsons (StreamEvent.channel_closed ∷ events) = jsons events
  jsons (StreamEvent.pinged sent ∷ events) = jsons events
  jsons (StreamEvent.incoming frame ∷ events) = jsons events

  -- Whether the loop goes on after an event.
  abbrev pub goes_on : StreamEvent F → Bool
  goes_on (StreamEvent.received snapshot sent) = json_goes (to_string snapshot) sent
  goes_on (StreamEvent.lagged n) = true
  goes_on StreamEvent.channel_closed = false
  goes_on (StreamEvent.pinged sent) = sent
  goes_on (StreamEvent.incoming frame) = not (is_close frame)

  abbrev pub all_go_on : List (StreamEvent F) → Bool
  all_go_on [] = true
  all_go_on (e ∷ events) = let rest = all_go_on events in goes_on e && rest

  -- What one event adds, and whether the loop goes on.
  abbrev IsSent : Stream → StreamEvent F → Stream → Type 0
  IsSent st e after =
      (after.running ≡ goes_on e)
      × ((goes_on e ≡ true → texts after.frames ≡ texts st.frames ++ jsons (e ∷ []))
          × (goes_on e ≡ false → texts after.frames ≡ texts st.frames))

  stream_turn-IsSent :
      (st : Stream) (e : StreamEvent F)
      → st.running ≡ true
      → IsSent st e (stream_turn to_string st e)
  unfolding stream_turn is_close
  stream_turn-IsSent st (StreamEvent.received snapshot sent) h =
      json_sent st (to_string snapshot) sent h
  stream_turn-IsSent st (StreamEvent.lagged n) h =
      (h, (λ _. sym (append-nil _), λ no. ground (arith, no)))
  stream_turn-IsSent st StreamEvent.channel_closed h =
      (refl, (λ yes. ground (arith, yes), λ _. refl))
  stream_turn-IsSent st (StreamEvent.pinged sent) h = frame_sent st ping sent h
  stream_turn-IsSent st (StreamEvent.incoming frame) h = elim (Bool-cases (is_close frame)) [
    | inl closing ↦ rw closing (refl, (λ yes. ground (arith, yes), λ _. refl))
    | inr other ↦ rw other (h, (λ _. sym (append-nil _), λ no. ground (arith, no)))
  ]

  jsons-cons :
      (e : StreamEvent F) (events : List (StreamEvent F))
      → jsons (e ∷ events) ≡ jsons (e ∷ []) ++ jsons events
  jsons-cons (StreamEvent.received snapshot sent) events =
      ap (λ xs. xs ++ jsons events) (sym (append-nil (json_of (to_string snapshot))))
  jsons-cons (StreamEvent.lagged n) events = refl
  jsons-cons StreamEvent.channel_closed events = refl
  jsons-cons (StreamEvent.pinged sent) events = refl
  jsons-cons (StreamEvent.incoming frame) events = refl

  stream_turns-ended :
      (st : Stream) (events : List (StreamEvent F))
      → st.running ≡ false
      → stream_turns to_string st events ≡ st
  unfolding stream_turns
  stream_turns-ended st [] h = refl
  stream_turns-ended st (e ∷ events) h =
      ap (λ b. if b then stream_turns to_string (stream_turn to_string st e) events else st) h

  stream_turns-step :
      (st : Stream) (e : StreamEvent F) (events : List (StreamEvent F))
      → st.running ≡ true
      → stream_turns to_string st (e ∷ events)
        ≡ stream_turns to_string (stream_turn to_string st e) events
  unfolding stream_turns
  stream_turns-step st e events h =
      ap (λ b. if b then stream_turns to_string (stream_turn to_string st e) events else st) h

  -- Of a loop that has these texts and that goes on with these events.
  abbrev IsDelivered : Stream → Bool → List String → Type 0
  IsDelivered st all_on all = (st.running ≡ all_on) × Delivered all_on (texts st.frames) all

  stream_turns-IsDelivered :
      (st : Stream) (events : List (StreamEvent F))
      → st.running ≡ true
      → IsDelivered
          (stream_turns to_string st events)
          (all_go_on events)
          (texts st.frames ++ jsons events)
  unfolding stream_turns
  stream_turns-IsDelivered st [] h = (h, sym (append-nil _))
  stream_turns-IsDelivered st (e ∷ events) h =
      subst
        (λ r. IsDelivered r (goes_on e && all_go_on events) (texts st.frames ++ jsons (e ∷ events)))
        (sym (stream_turns-step st e events h))
        (elim (Bool-cases (goes_on e)) [
          | inl on ↦ rw on (
              subst
                (IsDelivered (stream_turns to_string (stream_turn to_string st e) events)
                  (all_go_on events))
                (ap (λ xs. xs ++ jsons events) (now.1.0 on)
                  ∙ append_assoc (texts st.frames) (jsons (e ∷ [])) (jsons events)
                  ∙ ap (λ xs. texts st.frames ++ xs) (sym (jsons-cons e events)))
                (stream_turns-IsDelivered (stream_turn to_string st e) events (now.0 ∙ on)))
          | inr off ↦
              rw (off, stream_turns-ended (stream_turn to_string st e) events (now.0 ∙ off))
                (
                  now.0 ∙ off,
                  (jsons (e ∷ events), ap (λ xs. xs ++ jsons (e ∷ events)) (sym (now.1.1 off))),
                )
        ])
    where
      now : IsSent st e (stream_turn to_string st e)
      now = stream_turn-IsSent st e h

  -- To a client of `/ws/system` go the welcome and then the snapshots of the channel, each once and
  -- in their order, whatever pings, lags and other frames come between. The stream runs as long as
  -- each text can be serialized, each frame is sent in time, the channel is open and no frame that
  -- comes in closes; then it has sent them all, and otherwise all but some at the end.
  pub stream_system-Delivered :
      (welcome : Option String) (sent : Bool) (events : List (StreamEvent F))
      → ((stream_system to_string welcome sent events).running
          ≡ (json_goes welcome sent && all_go_on events))
        × Delivered
            (json_goes welcome sent && all_go_on events)
            (texts (stream_system to_string welcome sent events).frames)
            (json_of welcome ++ jsons events)
  unfolding stream_system send_frame
  stream_system-Delivered none sent events =
      rw (stream_turns-ended (record { frames = []; running = false }) events refl)
        (refl, (jsons events, refl))
  stream_system-Delivered (some json) true events =
      stream_turns-IsDelivered (record { frames = text json ∷ []; running = true }) events refl
  stream_system-Delivered (some json) false events =
      rw (stream_turns-ended (record { frames = []; running = false }) events refl)
        (refl, (json ∷ jsons events, refl))
