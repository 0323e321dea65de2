-- ===== src/Gateway/Privacy.antt =====
-- Who learns of private messages.
use pulse_chat.Base.{
  append-nil, ℕ, ◌≡◌, refl, sym, ◌∙◌, ap, ◌≢◌, ◌⊎◌, inl, inr, List, [], ◌∷◌, ◌++◌, Option, some,
  Bool, true, false, arith, Bool-cases, if◌then◌else◌, ◌==◌, ==_iff,
}
use pulse_chat.Text.Laws.{is_empty-trim}
use pulse_chat.Text.{Text, is_empty, to_lower, trim}
use pulse_chat.Utf8.{Bytes}
use pulse_chat.Pcap.Codes.{private_message}
use pulse_chat.Pcap.{DecodedFrame, encode_frame}
use pulse_chat.Db.{World}
use pulse_chat.Db.Users.{default_to}
use pulse_chat.Gateway.{
  pcap_frame, ClientSession, Event, telemetry_event, Effect, sent, written, connected, ended,
  Sessions, Gateway, to_all, broadcast_to_all,
}
use pulse_chat.Gateway.Actions.{ClientMessage, on_private_message, forward, outbound_telemetry}
use pulse_chat.Gateway.Sockets.{
  is_private_frame, inbound_telemetry, telemetry_payload, on_frame, on_frames,
}

-- The events that a socket is sent, in order.
unfoldable pub seen_by : ℕ → List Effect → List Event
seen_by j [] = []
seen_by j (sent i e ∷ es) = if i == j then e ∷ seen_by j es else seen_by j es
seen_by j (_ ∷ es) = seen_by j es

seen_by-append : (j : ℕ) (es fs : List Effect) → seen_by j (es ++ fs) ≡ seen_by j es ++ seen_by j fs
unfolding seen_by
seen_by-append j [] fs = refl
seen_by-append j (sent i e ∷ es) fs = ground (arith, seen_by-append j es fs)
seen_by-append j (written _ _ ∷ es) fs = seen_by-append j es fs
seen_by-append j (connected _ ∷ es) fs = seen_by-append j es fs
seen_by-append j (ended _ ∷ es) fs = seen_by-append j es fs

-- Two runs of frames that differ in the texts of private messages only.
pub data DifferInPrivate : List DecodedFrame → List DecodedFrame → Type 0 where
  done : DifferInPrivate [] []
  same :
      (frame : DecodedFrame) {fs fs' : List DecodedFrame}
      → DifferInPrivate fs fs'
      → DifferInPrivate (frame ∷ fs) (frame ∷ fs')
  private :
      (frame : DecodedFrame) (text hex : Text) {fs fs' : List DecodedFrame}
      → is_private_frame frame ≡ true
      → DifferInPrivate fs fs'
      → DifferInPrivate (frame ∷ fs) (record frame { payload = text; raw_hex = hex } ∷ fs')

-- Two states that look the same to a socket.
abbrev Alike : ℕ → Gateway → Gateway → Type 0
Alike j g g' = (g.sessions ≡ g'.sessions) × (seen_by j g.outbox ≡ seen_by j g'.outbox)

inbound_telemetry-private :
    (frame : DecodedFrame) (text hex : Text)
    → is_private_frame frame ≡ true
    → inbound_telemetry (record frame { payload = text; raw_hex = hex }) ≡ inbound_telemetry frame
unfolding inbound_telemetry telemetry_payload
inbound_telemetry-private frame text hex h = rw h

seen_by_other :
    (j id : ℕ) (e : Event) (es : List Effect)
    → j ≢ id
    → seen_by j (es ++ sent id e ∷ []) ≡ seen_by j es
unfolding seen_by
seen_by_other j id e es h =
    rw seen_by-append (ground (arith, ==_iff id j, append-nil (seen_by j es)))

on_frame-seen_by :
    (j id : ℕ) (is_open : Bool) (frame : DecodedFrame) (g : Gateway)
    → j ≢ id
    → seen_by j (on_frame id is_open frame g).outbox
      ≡ seen_by j g.outbox
        ++ seen_by j (to_all (telemetry_event (inbound_telemetry frame)) g.sessions)
unfolding on_frame broadcast_to_all
on_frame-seen_by j id true frame g h =
    rw (seen_by-append, seen_by_other j id (pcap_frame frame) g.outbox h)
on_frame-seen_by j id false frame g h = rw seen_by-append

on_frame-sessions :
    (id : ℕ) (is_open : Bool) (frame : DecodedFrame) (g : Gateway)
    → (on_frame id is_open frame g).sessions ≡ g.sessions
unfolding on_frame broadcast_to_all
on_frame-sessions id is_open frame g = ground arith

on_frame-Alike :
    (j id : ℕ) (is_open : Bool) (frame frame' : DecodedFrame) (g g' : Gateway)
    → j ≢ id
    → inbound_telemetry frame ≡ inbound_telemetry frame'
    → Alike j g g'
    → Alike j (on_frame id is_open frame g) (on_frame id is_open frame' g')
on_frame-Alike j id is_open frame frame' g g' h e (ss, os) = (
  cc (on_frame-sessions id is_open frame g, on_frame-sessions id is_open frame' g'),
  cc (on_frame-seen_by j id is_open frame g h, on_frame-seen_by j id is_open frame' g' h),
)

on_frames-Alike :
    (j id : ℕ) (is_open : Bool) {fs fs' : List DecodedFrame} (g g' : Gateway)
    → j ≢ id
    → DifferInPrivate fs fs'
    → Alike j g g'
    → Alike j (on_frames id is_open fs g) (on_frames id is_open fs' g')
unfolding on_frames
on_frames-Alike j id is_open g g' h done a = a
on_frames-Alike j id is_open g g' h (same frame d) a =
    on_frames-Alike j id is_open _ _ h d (on_frame-Alike j id is_open frame frame g g' h refl a)
on_frames-Alike j id is_open g g' h (private frame text hex p d) a =
    on_frames-Alike j id is_open _ _ h d (
      on_frame-Alike j id is_open frame _ g g' h (sym (inbound_telemetry-private frame text hex p))
        a)

-- Frames of the chat server that differ in the texts of private messages only look the same to
-- every client but the one whose connection they come from.
pub seen_by-on_frames :
    (j id : ℕ) (is_open : Bool) {fs fs' : List DecodedFrame} (g : Gateway)
    → j ≢ id
    → DifferInPrivate fs fs'
    → seen_by j (on_frames id is_open fs g).outbox ≡ seen_by j (on_frames id is_open fs' g).outbox
seen_by-on_frames j id is_open g h d = (on_frames-Alike j id is_open g g h d (refl, refl)).1

-- Membership.
abbrev pub Has : {A : Type 0} → A → List A → Type 0
Has x [] = ⊥
Has x (y ∷ ys) = (x ≡ y) ⊎ Has x ys

pub Has-append_left : {A : Type 0} (x : A) (xs ys : List A) → Has x xs → Has x (xs ++ ys)
Has-append_left x (y ∷ xs) ys (inl e) = inl e
Has-append_left x (y ∷ xs) ys (inr h) = inr (Has-append_left x xs ys h)
Has-append_left x [] ys h = absurd h

pub Has-append_right : {A : Type 0} (x : A) (xs ys : List A) → Has x ys → Has x (xs ++ ys)
Has-append_right x [] ys h = h
Has-append_right x (y ∷ xs) ys h = inr (Has-append_right x xs ys h)

pub Has-to_all :
    (e : Event) (i : ℕ) (s : ClientSession) (ss : Sessions)
    → Has (i, s) ss
    → s.is_open ≡ true
    → Has (sent i e) (to_all e ss)
unfolding to_all
Has-to_all e i s ((k, t) ∷ ss) (inl first) o =
    let opened : t.is_open ≡ true = ap (λ (x : ℕ × ClientSession). x.1.is_open) (sym first) ∙ o in
    rw opened (inl (ap (λ (x : ℕ × ClientSession). sent x.0 e) first))
Has-to_all e i s ((k, t) ∷ ss) (inr later) o = elim (Bool-cases t.is_open) [
  | inl opened ↦ rw opened (inr (Has-to_all e i s ss later o))
  | inr shut ↦ rw shut (Has-to_all e i s ss later o)
]
Has-to_all e i s [] h o = h

pub forward-shown :
    (w : World) (id i : ℕ) (msg : ClientMessage) (d : Bool) (frame : Bytes) (t : ClientSession)
    (g : Gateway)
    → d ≡ false
    → Has (i, t) g.sessions
    → t.is_open ≡ true
    → Has
        (sent i (telemetry_event (outbound_telemetry w msg frame)))
        (forward w id msg d frame g).outbox
unfolding forward broadcast_to_all
forward-shown w id i msg d frame t g alive there opened = rw alive (
    Has-append_right _ (g.outbox ++ written id frame ∷ []) _
      (Has-to_all _ i t g.sessions there opened))

default_to_filled :
    (o : Option Text) (text rest : Text)
    → o ≡ some text
    → is_empty (trim text) ≡ false
    → default_to o rest ≡ text
default_to_filled o text rest said filled = rw said (ground (arith, is_empty-trim text))

outbound_telemetry-payload :
    (w : World) (msg : ClientMessage) (frame : Bytes) (text : Text)
    → msg.text ≡ some text
    → is_empty (trim text) ≡ false
    → (outbound_telemetry w msg frame).payload ≡ text
unfolding outbound_telemetry
outbound_telemetry-payload w msg frame text said filled =
    default_to_filled msg.text text _ said filled

-- The frame of a private message.
abbrev pub direct_frame : Text → Text → Bytes
direct_frame target text =
    encode_frame private_message (to_lower (trim target) ++ (b':' ∷ trim text))

-- What a browser sends as a private message is shown to every client that is connected, text and
-- all: the telemetry of the frame that goes out carries it.
pub on_private_message-shown :
    (w : World) (id i : ℕ) (msg : ClientMessage) (s t : ClientSession) (g : Gateway) (text : Text)
    → is_empty s.username ≡ false
    → is_empty (to_lower (trim (default_to msg.target []))) ≡ false
    → msg.text ≡ some text
    → is_empty (trim text) ≡ false
    → s.is_destroyed ≡ false
    → Has (i, t) g.sessions
    → t.is_open ≡ true
    → let shown = outbound_telemetry w msg (direct_frame (default_to msg.target []) text) in
      Has (sent i (telemetry_event shown)) (on_private_message w id msg s g).outbox
      × (shown.payload ≡ text)
unfolding on_private_message
on_private_message-shown w id i msg s t g text named aimed said filled alive there opened =
    let whole : default_to msg.text [] ≡ text = default_to_filled msg.text text [] said filled in
    (
      rw (whole, named, aimed, filled)
          (forward-shown w id i msg s.is_destroyed (direct_frame (default_to msg.target []) text) t
            _ alive there opened),
      outbound_telemetry-payload w msg (direct_frame (default_to msg.target []) text) text said
          filled,
    )
