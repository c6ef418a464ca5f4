-- ===== src/Session/Forward.antt =====
-- The state of a server's `VRCPSocket` over its whole life: it never goes back, and a socket whose
-- client was refused serves no other.
use wireless_vr_bridge.Base.{ℕ, ◌≤◌, ◌≡◌, refl, ap, arith, true, false, not, ◌||◌, List}
use wireless_vr_bridge.Sockets.{Receiving, refresh_state, is_connected_state}
use wireless_vr_bridge.Handshake.{VrcpClientParams, VrcpServerParams}
use wireless_vr_bridge.Session.{
  VrcpSocketState, awaiting_connection, negotiating, session_connected, session_closed, is_awaiting,
  is_negotiating, is_session_connected, Session, Events, ◌>>=◌, give, throw,
}
use wireless_vr_bridge.Session.Server.{
  listen, listen_for_conn_req, negotiate, reset_server, close, is_connected_refresh, is_empty_list,
}
use wireless_vr_bridge.Session.Keeps.{Keeps-if, listen_for_conn_req-Keeps, reset_server-Keeps}

-- The order in which a session goes through its states.
abbrev pub rank : VrcpSocketState → ℕ
rank awaiting_connection = 0
rank negotiating = 1
rank session_connected = 2
rank session_closed = 3

abbrev pub IsPast : ℕ → VrcpSocketState → Type 0
IsPast n state = n ≤ rank state

-- One call of the server's interface, with any events and however it ends.
pub data ServerCall : Session → Session → Type 0 where
  listened :
      {s : Session} (bcast_addrs : List ℕ) (events : Events) (params : VrcpServerParams)
      (before : VrcpClientParams)
      → ServerCall s (listen bcast_addrs events params before s).0
  was_reset : {s : Session} (events : Events) → ServerCall s (reset_server events s).0
  was_closed : {s : Session} → ServerCall s (close s).0
  refreshed : {s : Session} (r : Receiving) → ServerCall s (is_connected_refresh r s).0

pub data ServerRun : Session → Session → Type 0 where
  no_call : {s : Session} → ServerRun s s
  after_call : {s s' s'' : Session} → ServerCall s s' → ServerRun s' s'' → ServerRun s s''

started_listen :
    (events : Events) (params : VrcpServerParams) (before : VrcpClientParams) (bcast_addrs : List ℕ)
    (n : ℕ) (s : Session)
    → n ≤ 2
    → is_awaiting s.socket.state ≡ false
    → IsPast n s.socket.state
    → IsPast n (listen bcast_addrs events params before s).0.socket.state
unfolding listen
started_listen events params before bcast_addrs n s h quiet start = rw quiet (
    Keeps-if (IsPast n) (not (false || is_negotiating s.socket.state)) throw _ (λ s' p. p)
      (Keeps-if (IsPast n) (is_empty_list params.supported_video_codecs) throw
        (negotiate events params before) (λ s' p. p)
        (λ s' p.
          Keeps-if (IsPast n) (is_negotiating s'.socket.state)
            (listen_for_conn_req events params before events.receiving) throw
            (listen_for_conn_req-Keeps (IsPast n) h events params before events.receiving)
            (λ s'' p'. p') s' p))
      s start)

listen-IsPast :
    (bcast_addrs : List ℕ) (events : Events) (params : VrcpServerParams) (before : VrcpClientParams)
    (s : Session) (state : VrcpSocketState)
    → s.socket.state ≡ state
    → IsPast (rank state) (listen bcast_addrs events params before s).0.socket.state
unfolding listen
listen-IsPast bcast_addrs events params before s awaiting_connection e = omega arith
listen-IsPast bcast_addrs events params before s negotiating e =
    started_listen events params before bcast_addrs 1 s (omega arith) (ap is_awaiting e)
      (rw e (omega arith))
listen-IsPast bcast_addrs events params before s session_connected e =
    started_listen events params before bcast_addrs 2 s (omega arith) (ap is_awaiting e)
      (rw e (omega arith))
listen-IsPast bcast_addrs events params before s session_closed e = rw e (omega arith)

is_connected_refresh-IsPast :
    (r : Receiving) (s : Session) (state : VrcpSocketState)
    → s.socket.state ≡ state
    → IsPast (rank state) (is_connected_refresh r s).0.socket.state
unfolding is_connected_refresh close
is_connected_refresh-IsPast r s awaiting_connection e = omega arith
is_connected_refresh-IsPast r s negotiating e = rw e (omega arith)
is_connected_refresh-IsPast r s session_connected e =
    let start : 2 ≤ rank s.socket.state = rw e (omega arith) in
    let tcp = refresh_state r s.socket.tcp_socket in
    let here : is_session_connected s.socket.state ≡ true = ap is_session_connected e in
    rw here (
      Keeps-if (IsPast 2) (is_connected_state tcp.state) (give true) (close >>= λ _. give false)
        (λ s' p. p) (λ s' p. omega arith)
        (record s { socket = record s.socket { tcp_socket = tcp } }) start)
is_connected_refresh-IsPast r s session_closed e = rw e (omega arith)

call-IsPast : (s s' : Session) → ServerCall s s' → IsPast (rank s.socket.state) s'.socket.state
unfolding close
call-IsPast s s' (listened bcast_addrs events params before) =
    listen-IsPast bcast_addrs events params before s s.socket.state refl
call-IsPast s s' (was_reset events) =
    reset_server-Keeps (IsPast (rank s.socket.state)) events s (omega arith)
call-IsPast s s' was_closed = last s.socket.state
  where
    last : (state : VrcpSocketState) → rank state ≤ 3
    last awaiting_connection = omega arith
    last negotiating = omega arith
    last session_connected = omega arith
    last session_closed = omega arith
call-IsPast s s' (refreshed r) = is_connected_refresh-IsPast r s s.socket.state refl

-- Whatever a server calls of `listen`, `reset_server`, `close` and `is_connected_refresh`, in any order,
-- with any events, and whether the calls return or throw, the state of its socket never goes back in the
-- order AWAITING_CONNECTION, NEGOTIATING, CONNECTED, CLOSED.
pub ServerRun-IsPast :
    (s s' : Session) → ServerRun s s' → IsPast (rank s.socket.state) s'.socket.state
ServerRun-IsPast s s' no_call = omega arith
ServerRun-IsPast s s' (after_call c run) =
    let first = call-IsPast s _ c in
    let rest = ServerRun-IsPast _ s' run in omega (arith, first, rest)
