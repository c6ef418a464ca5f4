-- ===== src/Session/Opened.antt =====
-- When `listen` returns true: what the caller then knows.
use wireless_vr_bridge.Base.{
  if_both, ==_iff, ℕ, ◌≡◌, ◌≢◌, ◌⊎◌, inl, inr, refl, ap, ◌∙◌, true, not, ◌||◌, List, [], ◌∷◌, ◌++◌,
  Option, none, some, if◌then◌else◌, ◌==◌, length, get_or, arith,
}
use wireless_vr_bridge.Network.{ntohs}
use wireless_vr_bridge.Vrcp.{to_u8, conn_req, VrcpRejectReason}
use wireless_vr_bridge.Sockets.{returned, Receiving}
use wireless_vr_bridge.Handshake.{VrcpClientParams, VrcpServerParams, VrcpConnectResp}
use wireless_vr_bridge.Handshake.Fields.{RequestFields}
use wireless_vr_bridge.Handshake.Request.{conn_req_at, conn_accept_packet}
use wireless_vr_bridge.Handshake.Judge.{
  Judgement, accept, reject, out_of_memory, judge_request, client_params_of, server_response,
}
use wireless_vr_bridge.Handshake.Answer.{Accepted, judge_request-Accepted}
use wireless_vr_bridge.Session.{
  session_connected, is_awaiting, is_negotiating, Session, Events, Call, ◌>>=◌, give, throw,
  reliable_send, receive_packet,
}
use wireless_vr_bridge.Session.Server.{
  listen, listen_for_tcp_connection, negotiate, listen_for_conn_req, on_request, answer_request,
  accept_request, finish_accept, enter_session, refuse_request, ensure_udp_socket, is_empty_list,
}
use wireless_vr_bridge.Session.Rounds.{
  Reaches, here, later, outcome_of, OnReturn, OnReturn-map, Ensures, Ensures-bind,
  then_call-returned,
}

-- A request that is refused: the client is told why, and the socket is reset.
pub record WasRefused (events : Events) (params : VrcpServerParams) (packet : List ℕ)
    (s s' : Session) : Type 0 where
  pub because : VrcpRejectReason
  pub err_data : ℕ
  pub refused :
      judge_request params (packet ++ events.behind) (length packet) ≡ reject because err_data
  pub answered : refuse_request events because err_data s ≡ (s', returned tt)

-- What makes the loop of `listen_for_conn_req` go on.
abbrev pub ListensOn : Events → VrcpServerParams → List ℕ → Session → Session → Type 0
ListensOn events params packet s s' =
    ((get_or packet 0 0 ≢ to_u8 conn_req) × (s' ≡ s)) ⊎ WasRefused events params packet s s'

-- The loop, begun in `start`, came to a request that it accepted, and gave the answers.
pub record WasAccepted (events : Events) (params : VrcpServerParams) (before : VrcpClientParams)
    (rounds : List Receiving) (start : Session) (client_params : VrcpClientParams)
    (resp : VrcpConnectResp) (s : Session) : Type 0 where
  pub state : s.socket.state ≡ session_connected
  pub packet : List ℕ
  pub at : Session
  pub reached : Reaches (ListensOn events params) rounds start packet at
  pub is_request : get_or packet 0 0 ≡ to_u8 conn_req
  pub fields : RequestFields
  pub accepted :
      Accepted params (packet ++ events.behind) (length packet) fields resp.chosen_video_codec
  pub params_read :
      client_params ≡ client_params_of (conn_req_at (packet ++ events.behind)) fields before
  pub response_read :
      resp ≡ server_response (conn_req_at (packet ++ events.behind)) resp.chosen_video_codec

-- The state in which a call of `listen` begins the loop.
pub data ListenStarts (bcast_addrs : List ℕ) (events : Events) (s : Session)
    : Session → Type 0 where
  was_negotiating : is_negotiating s.socket.state ≡ true → ListenStarts bcast_addrs events s s
  new_connection :
      {s' : Session}
      → is_awaiting s.socket.state ≡ true
      → listen_for_tcp_connection bcast_addrs events s ≡ (s', returned true)
      → ListenStarts bcast_addrs events s s'

module _ (events : Events) (params : VrcpServerParams) (before : VrcpClientParams) where
  abbrev WhenAccepted :
      List Receiving → Session → Option (VrcpClientParams × VrcpConnectResp) → Session → Type 0
  WhenAccepted rounds start none s = Unit
  WhenAccepted rounds start (some (client_params, resp)) s =
      WasAccepted events params before rounds start client_params resp s

  -- The result of a call of `listen` in the state `s`.
  abbrev pub WhenTrue :
      List ℕ → Session → Option (VrcpClientParams × VrcpConnectResp) → Session → Type 0
  WhenTrue bcast_addrs s none s' = Unit
  WhenTrue bcast_addrs s (some (client_params, resp)) s' =
      (start : Session) × ListenStarts bcast_addrs events s start
      × WasAccepted events params before events.receiving start client_params resp s'

  -- A round that goes on: what the later rounds end with, the loop ends with.
  later-WhenAccepted :
      (r : Receiving) (rs : List Receiving) (s s' s'' : Session) (other : List ℕ)
      → receive_packet r s ≡ (s', returned (some other))
      → ListensOn events params other s' s''
      → (result : Option (VrcpClientParams × VrcpConnectResp)) (t : Session)
      → WhenAccepted rs s'' result t
      → WhenAccepted (r ∷ rs) s result t
  later-WhenAccepted r rs s s' s'' other e g none t h = tt
  later-WhenAccepted r rs s s' s'' other e g (some (client_params, resp)) t h = record {
    state = h.state;
    packet = h.packet;
    at = h.at;
    reached = later other e g h.reached;
    is_request = h.is_request;
    fields = h.fields;
    accepted = h.accepted;
    params_read = h.params_read;
    response_read = h.response_read;
  }

  accept_request-WasAccepted :
      (rounds : List Receiving) (start at : Session) (packet : List ℕ) (f : RequestFields)
      (codec : List ℕ)
      → Reaches (ListensOn events params) rounds start packet at
      → get_or packet 0 0 ≡ to_u8 conn_req
      → judge_request params (packet ++ events.behind) (length packet) ≡ accept f codec
      → Ensures
          (WhenAccepted rounds start)
          (accept_request events params before (packet ++ events.behind) f codec)
  accept_request-WasAccepted rounds start at packet f codec w q e s =
      Ensures-bind (WhenAccepted rounds start) (ensure_udp_socket events s.socket.udp_socket)
        (finish_accept events params.video_port codec (
          client_params_of (conn_req_at (packet ++ events.behind)) f before,
          server_response (conn_req_at (packet ++ events.behind)) codec,
        ))
        (λ udp.
          Ensures-bind (WhenAccepted rounds start)
            (reliable_send events (conn_accept_packet udp.local_addr.port params.video_port codec))
            (λ _. enter_session (
              client_params_of (conn_req_at (packet ++ events.behind)) f before,
              server_response (conn_req_at (packet ++ events.behind)) codec,
            ))
            (λ _ s'. record {
              state = refl;
              packet = packet;
              at = at;
              reached = w;
              is_request = q;
              fields = f;
              accepted =
                  judge_request-Accepted params (packet ++ events.behind) (length packet) f codec e;
              params_read = refl;
              response_read = refl;
            }))
        (record s {
          socket = record s.socket {
            peer_udp_addr = record {
              addr = s.socket.tcp_socket.peer_addr.addr;
              port = ntohs (conn_req_at (packet ++ events.behind)).udp_vrcp_port;
            };
            udp_broadcast_socket = none;
          };
        })

  -- One round, where the rounds after it are as they should be.
  module _ (r : Receiving) (rs : List Receiving)
      (next : Call (Option (VrcpClientParams × VrcpConnectResp)))
      (h : (s : Session) → OnReturn (WhenAccepted rs s) (next s)) where
    answer_request-WasAccepted :
        (s s' : Session) (packet : List ℕ)
        → receive_packet r s ≡ (s', returned (some packet))
        → get_or packet 0 0 ≡ to_u8 conn_req
        → (j : Judgement) → judge_request params (packet ++ events.behind) (length packet) ≡ j
        → OnReturn
            (WhenAccepted (r ∷ rs) s)
            (answer_request events params before (packet ++ events.behind) next j s')
    answer_request-WasAccepted s s' packet w q (accept f codec) e =
        accept_request-WasAccepted (r ∷ rs) s s' packet f codec (here w) q e s'
    answer_request-WasAccepted s s' packet w q (reject because err_data) e =
        let refusal = refuse_request events because err_data s' in
        then_call-returned (WhenAccepted (r ∷ rs) s) (λ _. next) refusal
          (λ done g.
            OnReturn-map (WhenAccepted rs refusal.0) (WhenAccepted (r ∷ rs) s) (next refusal.0)
              (later-WhenAccepted r rs s s' refusal.0 packet w (
                inr (record {
                  because = because;
                  err_data = err_data;
                  refused = e;
                  answered = outcome_of refusal done g;
                })))
              (h refusal.0))
    answer_request-WasAccepted s s' packet w q out_of_memory e = tt

    on_request-WasAccepted :
        (s s' : Session) (received : Option (List ℕ))
        → receive_packet r s ≡ (s', returned received)
        → OnReturn (WhenAccepted (r ∷ rs) s) (on_request events params before next received s')
    on_request-WasAccepted s s' none w = tt
    on_request-WasAccepted s s' (some packet) w =
        if_both (λ c. OnReturn (WhenAccepted (r ∷ rs) s) (c s'))
          (get_or packet 0 0 == to_u8 conn_req)
          (answer_request events params before (packet ++ events.behind) next
            (judge_request params (packet ++ events.behind) (length packet)))
          next
          (λ e.
            answer_request-WasAccepted s s' packet w
              ((==_iff (get_or packet 0 0) (to_u8 conn_req)).0 e)
              (judge_request params (packet ++ events.behind) (length packet)) refl)
          (λ e.
            OnReturn-map (WhenAccepted rs s') (WhenAccepted (r ∷ rs) s) (next s')
              (later-WhenAccepted r rs s s' s' packet w (inl (ground (arith, e), refl))) (h s'))

  listen_for_conn_req-WasAccepted :
      (rounds : List Receiving) (s : Session)
      → OnReturn (WhenAccepted rounds s) (listen_for_conn_req events params before rounds s)
  unfolding listen_for_conn_req
  listen_for_conn_req-WasAccepted [] s = tt
  listen_for_conn_req-WasAccepted (r ∷ rs) s =
      let next = listen_for_conn_req events params before rs in
      then_call-returned (WhenAccepted (r ∷ rs) s) (on_request events params before next)
        (receive_packet r s)
        (λ received g.
          on_request-WasAccepted r rs next (listen_for_conn_req-WasAccepted rs) s
            (receive_packet r s).0 received (outcome_of (receive_packet r s) received g))

  given_start :
      (bcast_addrs : List ℕ) (s start : Session)
      → ListenStarts bcast_addrs events s start
      → (result : Option (VrcpClientParams × VrcpConnectResp)) (t : Session)
      → WhenAccepted events.receiving start result t
      → WhenTrue bcast_addrs s result t
  given_start bcast_addrs s start b none t h = tt
  given_start bcast_addrs s start b (some (client_params, resp)) t h = (start, b, h)

  negotiate-WhenTrue :
      (bcast_addrs : List ℕ) (s start : Session)
      → (is_negotiating start.socket.state ≡ true → ListenStarts bcast_addrs events s start)
      → OnReturn (WhenTrue bcast_addrs s) (negotiate events params before start)
  negotiate-WhenTrue bcast_addrs s start b =
      if_both (λ c. OnReturn (WhenTrue bcast_addrs s) (c start)) (is_negotiating start.socket.state)
        (listen_for_conn_req events params before events.receiving) throw
        (λ e.
          OnReturn-map (WhenAccepted events.receiving start) (WhenTrue bcast_addrs s)
            (listen_for_conn_req events params before events.receiving start)
            (given_start bcast_addrs s start (b e))
            (listen_for_conn_req-WasAccepted events.receiving start))
        (λ e. tt)

  connected-WhenTrue :
      (bcast_addrs : List ℕ) (s : Session)
      → is_awaiting s.socket.state ≡ true
      → OnReturn (WhenTrue bcast_addrs s) (
          (listen_for_tcp_connection bcast_addrs events >>= λ connected.
          if connected then negotiate events params before else give none)
            s)
  connected-WhenTrue bcast_addrs s a =
      let connection = listen_for_tcp_connection bcast_addrs events s in
      then_call-returned (WhenTrue bcast_addrs s)
        (λ connected. if connected then negotiate events params before else give none) connection
        (λ connected g.
          if_both (λ c. OnReturn (WhenTrue bcast_addrs s) (c connection.0)) connected
            (negotiate events params before) (give none)
            (λ e.
              negotiate-WhenTrue bcast_addrs s connection.0
                (λ _. new_connection a (outcome_of connection true (g ∙ ap returned e))))
            (λ e. tt))

  -- When `listen` returns true, the session is CONNECTED, and it was opened by a CONN_REQ that this
  -- call received. The loop began in the state of the call, if that was NEGOTIATING, or in the one that
  -- `listen_for_tcp_connection` left when it returned true; `reliable_receive` gave the packet in one of
  -- the rounds, after packets that are no CONN_REQ and requests that were refused. The packet passed
  -- every check of `Accepted`: what the caller is given, the client's parameters and the response, was
  -- read from it, and the codec was chosen from the server's list and the packet's.
  pub listen-WasAccepted :
      (bcast_addrs : List ℕ) (s : Session)
      → OnReturn (WhenTrue bcast_addrs s) (listen bcast_addrs events params before s)
  unfolding listen
  listen-WasAccepted bcast_addrs s =
      if_both (λ c. OnReturn (WhenTrue bcast_addrs s) (c s))
        (not (is_awaiting s.socket.state || is_negotiating s.socket.state)) throw _ (λ _. tt)
        (λ _.
          if_both (λ c. OnReturn (WhenTrue bcast_addrs s) (c s))
            (is_empty_list params.supported_video_codecs) throw _ (λ _. tt)
            (λ _.
              if_both (λ c. OnReturn (WhenTrue bcast_addrs s) (c s)) (is_awaiting s.socket.state)
                (listen_for_tcp_connection bcast_addrs events >>= λ connected.
                  if connected then negotiate events params before else give none)
                (negotiate events params before) (λ a. connected-WhenTrue bcast_addrs s a)
                (λ _. negotiate-WhenTrue bcast_addrs s s (λ e. was_negotiating e))))
