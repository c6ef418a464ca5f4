-- ===== src/Session/Joined.antt =====
-- The client's side: when `connect` returns true, and what `reset_client` does then.
use wireless_vr_bridge.Base.{
  arith, ℕ, ◌≡◌, ◌≢◌, ◌⊎◌, ◌≤◌, ◌<◌, ◌∙◌, refl, ap, true, not, ◌||◌, ◌&&◌, List, [], ◌∷◌, Option,
  none, some, ◌==◌, leb, length, get_or, if_both,
}
use wireless_vr_bridge.Network.{ntohs}
use wireless_vr_bridge.Network.Wire.{load16}
use wireless_vr_bridge.Vrcp.{to_u8, conn_accept, conn_reject}
use wireless_vr_bridge.Sockets.{returned, SocketAddr, Receiving, tcp_connect}
use wireless_vr_bridge.Handshake.{VrcpClientParams, VrcpConnectResp}
use wireless_vr_bridge.Handshake.Judge.{read_accept}
use wireless_vr_bridge.Session.{
  session_connected, is_awaiting, is_negotiating, Session, Events, Call, ◌>>=◌, give, throw, on_tcp,
  receive_packet,
}
use wireless_vr_bridge.Session.Server.{is_empty_list, reset_client}
use wireless_vr_bridge.Session.Client.{
  connect, listen_for_conn_resp, listen_for_resp_loop, on_response, take_answer, settle,
  send_request, is_empty_text, on_connection,
}
use wireless_vr_bridge.Session.Rounds.{
  Reaches, here, later, outcome_of, OnReturn, OnReturn-map, then_call-returned, Ensures,
  Ensures-bind,
}

-- What makes the loop of `listen_for_conn_resp` go on: a packet that is no answer.
abbrev pub WaitsOn : List ℕ → Session → Session → Type 0
WaitsOn packet s s' =
    ((get_or packet 0 0 ≢ to_u8 conn_accept) ⊎ (length packet < 10))
    × (get_or packet 0 0 ≢ to_u8 conn_reject)
    × (s' ≡ s)

-- The loop, begun in `start`, came to a CONN_ACCEPT. The session is open, and what is only needed to
-- look for servers is given up.
pub record HasJoined (params : VrcpClientParams) (rounds : List Receiving) (start : Session)
    (resp : VrcpConnectResp) (s : Session) : Type 0 where
  pub state : s.socket.state ≡ session_connected
  pub no_broadcast : s.socket.udp_broadcast_socket ≡ none
  pub no_candidates : s.socket.server_candidates ≡ []
  pub packet : List ℕ
  pub at : Session
  pub reached : Reaches WaitsOn rounds start packet at
  pub is_accept : get_or packet 0 0 ≡ to_u8 conn_accept
  pub long : 10 ≤ length packet
  pub read : read_accept params packet ≡ some resp

-- The state in which a call of `connect` begins the loop: the one of the call, or the one after the
-- connection was made and the request sent.
pub data ConnectStarts (addr : SocketAddr) (events : Events) (params : VrcpClientParams)
    (fresh : List ℕ) (s : Session) : Session → Type 0 where
  was_negotiating :
      is_negotiating s.socket.state ≡ true → ConnectStarts addr events params fresh s s
  has_requested :
      {s' s'' : Session}
      → is_awaiting s.socket.state ≡ true
      → on_tcp (tcp_connect events.connecting addr s.socket.tcp_socket) s ≡ (s', returned true)
      → send_request events params fresh s' ≡ (s'', returned tt)
      → ConnectStarts addr events params fresh s s''

module _ (events : Events) (params : VrcpClientParams) where
  abbrev WhenAnswered : List Receiving → Session → Option VrcpConnectResp → Session → Type 0
  WhenAnswered rounds start none s = Unit
  WhenAnswered rounds start (some resp) s = HasJoined params rounds start resp s

  -- The result of a call of `connect` in the state `s`.
  abbrev pub WhenJoined : SocketAddr → List ℕ → Session → Option VrcpConnectResp → Session → Type 0
  WhenJoined addr fresh s none s' = Unit
  WhenJoined addr fresh s (some resp) s' =
      (start : Session) × ConnectStarts addr events params fresh s start
      × HasJoined params events.receiving start resp s'

  later-WhenAnswered :
      (r : Receiving) (rs : List Receiving) (s s' : Session) (other : List ℕ)
      → receive_packet r s ≡ (s', returned (some other))
      → WaitsOn other s' s'
      → (result : Option VrcpConnectResp) (t : Session) → WhenAnswered rs s' result t
      → WhenAnswered (r ∷ rs) s result t
  later-WhenAnswered r rs s s' other e g none t h = tt
  later-WhenAnswered r rs s s' other e g (some resp) t h = record {
    state = h.state;
    no_broadcast = h.no_broadcast;
    no_candidates = h.no_candidates;
    packet = h.packet;
    at = h.at;
    reached = later other e g h.reached;
    is_accept = h.is_accept;
    long = h.long;
    read = h.read;
  }

  settle-HasJoined :
      (rounds : List Receiving) (start at : Session) (packet : List ℕ)
      (answer : Option VrcpConnectResp)
      → Reaches WaitsOn rounds start packet at
      → (get_or packet 0 0 ≡ to_u8 conn_accept) × (10 ≤ length packet)
      → read_accept params packet ≡ answer
      → Ensures (WhenAnswered rounds start) (settle answer)
  settle-HasJoined rounds start at packet none w q e s = tt
  settle-HasJoined rounds start at packet (some resp) w q e s = record {
    state = refl;
    no_broadcast = refl;
    no_candidates = refl;
    packet = packet;
    at = at;
    reached = w;
    is_accept = q.0;
    long = q.1;
    read = e;
  }

  take_answer-HasJoined :
      (rounds : List Receiving) (start at : Session) (packet : List ℕ)
      → Reaches WaitsOn rounds start packet at
      → (get_or packet 0 0 ≡ to_u8 conn_accept) × (10 ≤ length packet)
      → Ensures (WhenAnswered rounds start) (take_answer params packet)
  take_answer-HasJoined rounds start at packet w q s =
      settle-HasJoined rounds start at packet (read_accept params packet) w q refl (record s {
        socket = record s.socket {
          peer_udp_addr = record {
            addr = s.socket.tcp_socket.peer_addr.addr;
            port = ntohs (load16 packet 4);
          };
        };
      })

  -- One round, where the rounds after it are as they should be.
  on_response-HasJoined :
      (r : Receiving) (rs : List Receiving) (next : Call (Option VrcpConnectResp)) (s s' : Session)
      (received : Option (List ℕ))
      → OnReturn (WhenAnswered rs s') (next s')
      → receive_packet r s ≡ (s', returned received)
      → OnReturn (WhenAnswered (r ∷ rs) s) (on_response events params next received s')
  on_response-HasJoined r rs next s s' none h w = tt
  on_response-HasJoined r rs next s s' (some packet) h w =
      if_both (λ c. OnReturn (WhenAnswered (r ∷ rs) s) (c s'))
        ((get_or packet 0 0 == to_u8 conn_accept) && leb 10 (length packet))
        (take_answer params packet) _
        (λ e. take_answer-HasJoined (r ∷ rs) s s' packet (here w) (ground (arith, e)) s')
        (λ e.
          if_both (λ c. OnReturn (WhenAnswered (r ∷ rs) s) (c s'))
            (get_or packet 0 0 == to_u8 conn_reject) (reset_client events >>= λ _. throw) next
            (λ _.
              Ensures-bind (WhenAnswered (r ∷ rs) s) (reset_client events) (λ _. throw) (λ _ t. tt)
                s')
            (λ e'.
              OnReturn-map (WhenAnswered rs s') (WhenAnswered (r ∷ rs) s) (next s')
                (later-WhenAnswered r rs s s' packet w
                  (ground (arith, e), ground (arith, e'), refl))
                h))

  loop-HasJoined :
      (rounds : List Receiving) (s : Session)
      → OnReturn (WhenAnswered rounds s) (listen_for_resp_loop events params rounds s)
  unfolding listen_for_resp_loop
  loop-HasJoined [] s = tt
  loop-HasJoined (r ∷ rs) s =
      let next = listen_for_resp_loop events params rs in
      then_call-returned (WhenAnswered (r ∷ rs) s) (on_response events params next)
        (receive_packet r s)
        (λ received g.
          on_response-HasJoined r rs next s (receive_packet r s).0 received
            (loop-HasJoined rs (receive_packet r s).0) (outcome_of (receive_packet r s) received g))

  module _ (addr : SocketAddr) (fresh : List ℕ) (s : Session) where
    given_start :
        (start : Session)
        → ConnectStarts addr events params fresh s start
        → (result : Option VrcpConnectResp) (t : Session)
        → WhenAnswered events.receiving start result t
        → WhenJoined addr fresh s result t
    given_start start b none t h = tt
    given_start start b (some resp) t h = (start, b, h)

    listen_for_conn_resp-WhenJoined :
        (start : Session)
        → (is_negotiating start.socket.state ≡ true
            → ConnectStarts addr events params fresh s start)
        → OnReturn (WhenJoined addr fresh s) (listen_for_conn_resp events params start)
    unfolding listen_for_conn_resp
    listen_for_conn_resp-WhenJoined start b =
        if_both (λ c. OnReturn (WhenJoined addr fresh s) (c start))
          (is_negotiating start.socket.state) (listen_for_resp_loop events params events.receiving)
          throw
          (λ e.
            OnReturn-map (WhenAnswered events.receiving start) (WhenJoined addr fresh s)
              (listen_for_resp_loop events params events.receiving start) (given_start start (b e))
              (loop-HasJoined events.receiving start))
          (λ e. tt)

    requested-WhenJoined :
        (s' : Session)
        → is_awaiting s.socket.state ≡ true
        → on_tcp (tcp_connect events.connecting addr s.socket.tcp_socket) s ≡ (s', returned true)
        → OnReturn
            (WhenJoined addr fresh s)
            ((send_request events params fresh >>= λ _. listen_for_conn_resp events params) s')
    requested-WhenJoined s' a c =
        let request = send_request events params fresh s' in
        then_call-returned (WhenJoined addr fresh s) (λ _. listen_for_conn_resp events params)
          request
          (λ done g.
            listen_for_conn_resp-WhenJoined request.0
              (λ _. has_requested a c (outcome_of request done g)))

    connected-WhenJoined :
        is_awaiting s.socket.state ≡ true
        → OnReturn (WhenJoined addr fresh s) (
            (on_tcp (tcp_connect events.connecting addr s.socket.tcp_socket)
                >>= on_connection events params fresh)
              s)
    connected-WhenJoined a =
        let connection = on_tcp (tcp_connect events.connecting addr s.socket.tcp_socket) s in
        then_call-returned (WhenJoined addr fresh s) (on_connection events params fresh) connection
          (λ connected g.
            if_both (λ c. OnReturn (WhenJoined addr fresh s) (c connection.0)) connected
              (send_request events params fresh >>= λ _. listen_for_conn_resp events params)
              (give none)
              (λ e.
                requested-WhenJoined connection.0 a
                  (outcome_of connection true (g ∙ ap returned e)))
              (λ e. tt))

  -- When `connect` returns true, the session is CONNECTED, neither the broadcast socket nor any
  -- candidate is left, and the response was read from a CONN_ACCEPT that this call received. The loop
  -- began in the state of the call, if that was NEGOTIATING, or in the one left after the TCP connection
  -- was made and the request sent; `reliable_receive` gave the packet in one of the rounds, after
  -- packets that are neither a CONN_ACCEPT of at least ten bytes nor a CONN_REJECT.
  pub connect-HasJoined :
      (addr : SocketAddr) (fresh : List ℕ) (s : Session)
      → OnReturn (WhenJoined addr fresh s) (connect addr events params fresh s)
  unfolding connect
  connect-HasJoined addr fresh s =
      if_both (λ c. OnReturn (WhenJoined addr fresh s) (c s))
        (is_empty_text params.specs.manufacturer_name
          || is_empty_text params.specs.system_name
          || is_empty_list params.supported_video_codecs)
        throw _ (λ _. tt)
        (λ _.
          if_both (λ c. OnReturn (WhenJoined addr fresh s) (c s))
            (not (is_awaiting s.socket.state || is_negotiating s.socket.state)) throw _ (λ _. tt)
            (λ _.
              if_both (λ c. OnReturn (WhenJoined addr fresh s) (c s)) (is_awaiting s.socket.state)
                (on_tcp (tcp_connect events.connecting addr s.socket.tcp_socket)
                  >>= on_connection events params fresh)
                (listen_for_conn_resp events params) (connected-WhenJoined addr fresh s)
                (λ _. listen_for_conn_resp-WhenJoined addr fresh s s (λ e. was_negotiating e))))
