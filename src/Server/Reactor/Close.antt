-- ===== src/Server/Reactor/Close.antt =====
-- Closing a connection in src/reactor/reactor_server.cpp: a farewell that cannot be written closes the
-- next connection, and this comes to an end.
use pulse_chat.Base.{
  ℕ, zero, suc, ◌≡◌, ◌≤◌, refl, ◌∙◌, List, [], ◌∷◌, Option, none, some, Option-cases, inl, inr,
  length, min, arith,
}
use pulse_chat.Text.{units_of}
use pulse_chat.Utf8.{Bytes}
use pulse_chat.Server.Wire.{Message}
use pulse_chat.Server.IdMap.{find, IdMap, length-set_at, length-erase, length-erase_le}
use pulse_chat.Server.Rooms.{get_username}
use pulse_chat.Server.Connection.{WriteStatus, all_flushed, pending_writes, write_error, Connection}
use pulse_chat.Server.Reactor.{
  Host, Reactor, Closing, flushed, keep, send_with, send_all_with, make_notify, left_text,
  room_mates, without_user, farewell, close_within, handle_close,
}

abbrev pub size : Reactor → ℕ
size st = length st.connections

-- A handler that opens no connection.
abbrev pub Shrinks : Closing → Type 0
Shrinks close = (fd : ℕ) (reason : Bytes) (st : Reactor) → size (close fd reason st) ≤ size st

flushed-Shrinks :
    (close : Closing) (fd : ℕ) (r : WriteStatus × Connection) (conn : Connection) (st : Reactor)
    → Shrinks close
    → find fd st.connections ≡ some conn
    → size (flushed close fd r st) ≤ size st
unfolding flushed
flushed-Shrinks close fd (write_error, c) conn st less e = omega (
  arith,
  less fd (units_of "Write error") (keep fd c st),
  length-set_at fd conn c st.connections e,
)
flushed-Shrinks close fd (all_flushed, c) conn st less e =
    omega (arith, length-set_at fd conn c st.connections e)
flushed-Shrinks close fd (pending_writes, c) conn st less e =
    omega (arith, length-set_at fd conn _ st.connections e)

pub send_with-Shrinks :
    (w : Host) (close : Closing) (fd : ℕ) (msg : Message) (st : Reactor)
    → Shrinks close
    → size (send_with w close fd msg st) ≤ size st
unfolding send_with
send_with-Shrinks w close fd msg st less = elim (Option-cases (find fd st.connections)) [
  | inl e ↦ rw (send_with, e) (omega arith)
  | inr (conn, e) ↦ rw (send_with, e) (flushed-Shrinks close fd _ conn st less e)
]

pub send_all_with-Shrinks :
    (w : Host) (close : Closing) (members : List ℕ) (msg : Message) (st : Reactor)
    → Shrinks close
    → size (send_all_with w close members msg st) ≤ size st
unfolding send_all_with
send_all_with-Shrinks w close [] msg st less = omega arith
send_all_with-Shrinks w close (fd ∷ members) msg st less = omega (
  arith,
  send_all_with-Shrinks w close members msg (send_with w close fd msg st) less,
  send_with-Shrinks w close fd msg st less,
)

farewell-Shrinks :
    (w : Host) (close : Closing) (fd : ℕ) (reason : Bytes) (username : Option Bytes) (st : Reactor)
    → Shrinks close
    → size (farewell w close fd reason username st) ≤ size st
unfolding farewell
farewell-Shrinks w close fd reason none st less = length-erase_le fd st.connections
farewell-Shrinks w close fd reason (some []) st less = length-erase_le fd st.connections
farewell-Shrinks w close fd reason (some (c ∷ name)) st less =
    omega (arith, send_all_with-Shrinks w close _ _ _ less, length-erase_le fd st.connections)

pub close_within-Shrinks :
    (w : Host) (fuel : ℕ) → Shrinks (λ fd reason st. close_within w fuel fd reason st)
unfolding close_within
close_within-Shrinks w zero fd reason st = omega arith
close_within-Shrinks w (suc fuel) fd reason st = elim (Option-cases (find fd st.connections)) [
  | inl e ↦ rw (close_within, e) (omega arith)
  | inr (conn, e) ↦
      rw (close_within, e)
        (farewell-Shrinks w (λ other why now. close_within w fuel other why now) fd reason _ st
          (close_within-Shrinks w fuel))
]

-- Two handlers that do the same to a state of at most n connections.
abbrev Agree : ℕ → Closing → Closing → Type 0
Agree n close close' =
    (fd : ℕ) (reason : Bytes) (st : Reactor)
    → size st ≤ n
    → close fd reason st ≡ close' fd reason st

flushed-Agree :
    (n : ℕ) (close close' : Closing) (fd : ℕ) (r : WriteStatus × Connection) (conn : Connection)
    (st : Reactor)
    → Agree n close close'
    → find fd st.connections ≡ some conn
    → size st ≤ n
    → flushed close fd r st ≡ flushed close' fd r st
unfolding flushed
flushed-Agree n close close' fd (write_error, c) conn st same e h =
    same fd (units_of "Write error") (keep fd c st)
      (omega (arith, length-set_at fd conn c st.connections e))
flushed-Agree n close close' fd (all_flushed, c) conn st same e h = refl
flushed-Agree n close close' fd (pending_writes, c) conn st same e h = refl

send_with-Agree :
    (n : ℕ) (w : Host) (close close' : Closing) (fd : ℕ) (msg : Message) (st : Reactor)
    → Agree n close close'
    → size st ≤ n
    → send_with w close fd msg st ≡ send_with w close' fd msg st
unfolding send_with
send_with-Agree n w close close' fd msg st same h = elim (Option-cases (find fd st.connections)) [
  | inl e ↦ rw (send_with, e) refl
  | inr (conn, e) ↦ rw (send_with, e) (flushed-Agree n close close' fd _ conn st same e h)
]

send_all_with-Agree :
    (n : ℕ) (w : Host) (close close' : Closing) (members : List ℕ) (msg : Message) (st : Reactor)
    → Agree n close close'
    → Shrinks close'
    → size st ≤ n
    → send_all_with w close members msg st ≡ send_all_with w close' members msg st
unfolding send_all_with
send_all_with-Agree n w close close' [] msg st same less h = refl
send_all_with-Agree n w close close' (fd ∷ members) msg st same less h =
    rw (send_with-Agree n w close close' fd msg st same h) (
      send_all_with-Agree n w close close' members msg (send_with w close' fd msg st) same less
        (omega (arith, send_with-Shrinks w close' fd msg st less)))

farewell-Agree :
    (n : ℕ) (w : Host) (close close' : Closing) (fd : ℕ) (reason : Bytes) (username : Option Bytes)
    (conn : Connection) (st : Reactor)
    → Agree n close close'
    → Shrinks close'
    → find fd st.connections ≡ some conn
    → size st ≤ suc n
    → farewell w close fd reason username st ≡ farewell w close' fd reason username st
unfolding farewell
farewell-Agree n w close close' fd reason none conn st same less e h = refl
farewell-Agree n w close close' fd reason (some []) conn st same less e h = refl
farewell-Agree n w close close' fd reason (some (c ∷ name)) conn st same less e h =
    send_all_with-Agree n w close close' (room_mates fd st)
      (make_notify (left_text (c ∷ name) reason)) (without_user fd st) same less
      (omega (arith, length-erase fd conn st.connections e))

find_nothing : (fd : ℕ) (conns : IdMap Connection) → length conns ≤ 0 → find fd conns ≡ none
unfolding find
find_nothing fd [] h = refl
find_nothing fd (_ ∷ conns) h = ground arith

pub close_within-enough :
    (w : Host) (n m : ℕ) (fd : ℕ) (reason : Bytes) (st : Reactor)
    → size st ≤ n
    → size st ≤ m
    → close_within w n fd reason st ≡ close_within w m fd reason st
unfolding close_within
close_within-enough w zero zero fd reason st h h' = refl
close_within-enough w zero (suc m) fd reason st h h' =
    rw (close_within, find_nothing fd st.connections h) refl
close_within-enough w (suc n) zero fd reason st h h' =
    rw (close_within, find_nothing fd st.connections h') refl
close_within-enough w (suc n) (suc m) fd reason st h h' =
    elim (Option-cases (find fd st.connections)) [
      | inl e ↦ rw (close_within, e) refl
      | inr (conn, e) ↦
          rw (close_within, e)
            (farewell-Agree (min n m) w (λ other why now. close_within w n other why now)
              (λ other why now. close_within w m other why now) fd reason
              (get_username fd st.room_manager) conn st
              (λ other why now less.
                close_within-enough w n m other why now (omega (arith, less)) (omega (arith, less)))
              (close_within-Shrinks w m) e (omega arith))
    ]

pub handle_close-Shrinks : (w : Host) → Shrinks (λ fd reason st. handle_close w fd reason st)
unfolding handle_close
handle_close-Shrinks w fd reason st = close_within-Shrinks w (size st) fd reason st

-- However many farewells cannot be written, closing a connection ends, and does what the code says: a
-- connection that is not there is left alone; else its user and the connection are gone, the members of
-- the user's room are told, and each connection that this cannot be written to is closed the same way.
pub handle_close-ends :
    (w : Host) (fd : ℕ) (reason : Bytes) (st : Reactor)
    → handle_close w fd reason st ≡ (elim (find fd st.connections) [
      | none ↦ st
      | some _ ↦
          farewell w
            (λ other why now. handle_close w other why now)
            fd
            reason
            (get_username fd st.room_manager)
            st
    ])
unfolding handle_close
handle_close-ends w fd reason st = elim (Option-cases (find fd st.connections)) [
  | inl e ↦ rw e (
      close_within-enough w (size st) (suc (size st)) fd reason st (omega arith) (omega arith)
      ∙ rw (close_within, e) refl)
  | inr (conn, e) ↦ rw e (
      close_within-enough w (size st) (suc (size st)) fd reason st (omega arith) (omega arith)
      ∙ rw (close_within, e)
          (farewell-Agree (size st) w (λ other why now. close_within w (size st) other why now)
            (λ other why now. handle_close w other why now) fd reason
            (get_username fd st.room_manager) conn st
            (λ other why now less.
              close_within-enough w (size st) (size now) other why now less (omega arith))
            (handle_close-Shrinks w) e (omega arith)))
]
