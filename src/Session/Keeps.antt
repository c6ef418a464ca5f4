-- ===== src/Session/Keeps.antt =====
-- What the calls of a `VRCPSocket` keep of its state, however they end.
use wireless_vr_bridge.Base.{
  ℕ, Bool, true, false, List, [], ◌∷◌, ◌++◌, Option, none, some, if◌then◌else◌, length, get_or, leb,
  ◌==◌, sub32,
}
use wireless_vr_bridge.Sockets.{
  SocketAddr, Tried, returned, threw, crashed, unfinished, UdpSocket, new_udp_socket,
  new_tcp_socket, tcp_close, udp_close, tcp_receive, tcp_send, Receiving,
}
use wireless_vr_bridge.VrcpSocket.{Reception, next_tcp_packet, move_to_front}
use wireless_vr_bridge.Network.{ntohs}
use wireless_vr_bridge.Vrcp.{VrcpRejectReason, reject_code, to_u8, conn_req}
use wireless_vr_bridge.Vrcp.Control.{default_vrcp_connection_reject, vrcp_connection_reject_bytes}
use wireless_vr_bridge.Handshake.{VrcpClientParams, VrcpServerParams, VrcpConnectResp}
use wireless_vr_bridge.Handshake.Fields.{RequestFields}
use wireless_vr_bridge.Handshake.Request.{conn_req_at, conn_accept_packet}
use wireless_vr_bridge.Handshake.Judge.{
  Judgement, accept, reject, out_of_memory, judge_request, client_params_of, server_response,
}
use wireless_vr_bridge.Session.{
  session_connected, VrcpSocketState, Session, Events, Call, then_call, ◌>>=◌, give, on_tcp,
  construct, sent_some, reliable_send, after_receive, receive_or_give, receive_packet, is_awaiting,
}
use wireless_vr_bridge.Session.Server.{
  advertise_to, advertisement_of, advertise, recreate_tcp_socket, recreate_broadcast_socket,
  on_request, answer_request, accept_request, finish_accept, enter_session, listen_for_conn_req,
  reset_server, ensure_udp_socket, refuse_request, broadcast, store_udp_socket, store_tcp_socket,
  store_broadcast_socket, replace_broadcast_socket,
}

-- A call keeps a property of the session's state.
abbrev pub Keeps : {A : Type 0} → (VrcpSocketState → Type 0) → Call A → Type 0
Keeps J c = (s : Session) → J s.socket.state → J (c s).0.socket.state

module _ (J : VrcpSocketState → Type 0) where
  then_call-keeps :
      {A B : Type 0} (f : A → Call B) (r : Session × Tried A)
      → ((a : A) → Keeps J (f a))
      → J r.0.socket.state
      → J (then_call f r).0.socket.state
  then_call-keeps f (s, returned a) k h = k a s h
  then_call-keeps f (s, threw) k h = h
  then_call-keeps f (s, crashed) k h = h
  then_call-keeps f (s, unfinished) k h = h

  pub Keeps-bind :
      {A B : Type 0} (c : Call A) (f : A → Call B)
      → Keeps J c
      → ((a : A) → Keeps J (f a))
      → Keeps J (c >>= f)
  Keeps-bind c f h k s p = then_call-keeps f (c s) k (h s p)

  pub Keeps-if :
      {A : Type 0} (b : Bool) (c c' : Call A)
      → Keeps J c
      → Keeps J c'
      → Keeps J (if b then c else c')
  Keeps-if true c c' h k = h
  Keeps-if false c c' h k = k

  construct-Keeps :
      {A : Type 0} (make : SocketAddr → A) (bound : Option SocketAddr)
      → Keeps J (construct make bound)
  construct-Keeps make none s p = p
  construct-Keeps make (some here) s p = p

  sent_some-Keeps : (packet : List ℕ) (n : Tried ℕ) → Keeps J (sent_some packet n)
  sent_some-Keeps packet (returned n) s p = p
  sent_some-Keeps packet threw s p = p
  sent_some-Keeps packet crashed s p = p
  sent_some-Keeps packet unfinished s p = p

  pub reliable_send-Keeps :
      (events : Events) (packet : List ℕ) → Keeps J (reliable_send events packet)
  reliable_send-Keeps events packet s p =
      sent_some-Keeps packet (tcp_send events.sending packet s.socket.tcp_socket) s p

  receive_or_give-Keeps :
      (r : Receiving) (first : Option (List ℕ) × Reception) → Keeps J (receive_or_give r first)
  receive_or_give-Keeps r (some packet, reception) s p = p
  receive_or_give-Keeps r (none, reception) s p =
      then_call-keeps (after_receive (move_to_front reception))
        (on_tcp (tcp_receive r s.socket.tcp_socket)
          (record s { socket = record s.socket { tcp_reception = move_to_front reception } }))
        (λ received s' p'. p') p

  pub receive_packet-Keeps : (r : Receiving) → Keeps J (receive_packet r)
  unfolding receive_packet
  receive_packet-Keeps r s p = receive_or_give-Keeps r (next_tcp_packet s.socket.tcp_reception) s p

  broadcast-Keeps :
      (packet : List ℕ) (addr : SocketAddr) (udp : Option UdpSocket)
      → Keeps J (broadcast packet addr udp)
  broadcast-Keeps packet addr none s p = p
  broadcast-Keeps packet addr (some u) s p = p

  advertise_to-Keeps :
      (packet : List ℕ) (port : ℕ) (addrs : List ℕ) → Keeps J (advertise_to packet port addrs)
  advertise_to-Keeps packet port [] s p = p
  advertise_to-Keeps packet port (addr ∷ addrs) s p =
      Keeps-bind
        (broadcast packet (record { addr = addr; port = port }) s.socket.udp_broadcast_socket)
        (λ _. advertise_to packet port addrs)
        (broadcast-Keeps packet (record { addr = addr; port = port }) s.socket.udp_broadcast_socket)
        (λ _. advertise_to-Keeps packet port addrs) s p

  pub advertise-Keeps : (addrs : List ℕ) (now : ℕ) → Keeps J (advertise addrs now)
  advertise-Keeps addrs now s p =
      Keeps-if
        (leb s.socket.advertisement_interval_sec (sub32 now s.socket.last_advertisement_time)) _ _
        (λ s' p'.
          Keeps-bind (advertise_to (advertisement_of now s.socket) s.socket.udp_advert_port addrs)
            (λ _. give false)
            (advertise_to-Keeps (advertisement_of now s.socket) s.socket.udp_advert_port addrs)
            (λ _ s'' p''. p'')
            (record s' { socket = record s'.socket { last_advertisement_time = now } }) p')
        (λ s' p'. p') s p

  store-Keeps :
      {A B : Type 0} (make : SocketAddr → A) (bound : Option SocketAddr) (store : A → Call B)
      → ((a : A) → Keeps J (store a))
      → Keeps J (construct make bound >>= store)
  store-Keeps make bound store h =
      Keeps-bind (construct make bound) store (construct-Keeps make bound) h

  pub ensure_udp_socket-Keeps :
      (events : Events) (udp : Option UdpSocket) → Keeps J (ensure_udp_socket events udp)
  ensure_udp_socket-Keeps events (some u) s p = p
  ensure_udp_socket-Keeps events none s p =
      store-Keeps new_udp_socket (events.bound s.socket.udp_vrcp_port) store_udp_socket
        (λ _ s' p'. p') s p

  pub recreate_tcp_socket-Keeps : (events : Events) → Keeps J (recreate_tcp_socket events)
  recreate_tcp_socket-Keeps events s p =
      store-Keeps new_tcp_socket (events.bound s.socket.tcp_socket.local_addr.port) store_tcp_socket
        (λ _ s' p'. p')
        (record s { socket = record s.socket { tcp_socket = tcp_close s.socket.tcp_socket } }) p

  replace_broadcast_socket-Keeps :
      (events : Events) (port : ℕ) (u : UdpSocket)
      → Keeps J (replace_broadcast_socket events port u)
  replace_broadcast_socket-Keeps events port u s p =
      store-Keeps new_udp_socket (events.bound port) store_broadcast_socket (λ _ s' p'. p')
        (record s { socket = record s.socket { udp_broadcast_socket = some (udp_close u) } }) p

  pub recreate_broadcast_socket-Keeps :
      (events : Events) (port : ℕ) (udp : Option UdpSocket)
      → Keeps J (recreate_broadcast_socket events port udp)
  recreate_broadcast_socket-Keeps events port none = λ s p. p
  recreate_broadcast_socket-Keeps events port (some u) =
      Keeps-if (u.local_addr.port == port) (give tt) (replace_broadcast_socket events port u)
        (λ s p. p) (replace_broadcast_socket-Keeps events port u)

  pub reset_server-Keeps : (events : Events) → Keeps J (reset_server events)
  unfolding reset_server
  reset_server-Keeps events s p =
      let renew =
        recreate_broadcast_socket events s.socket.local_advert_port s.socket.udp_broadcast_socket in
      Keeps-if (is_awaiting s.socket.state) (give tt) (recreate_tcp_socket events >>= λ _. renew)
        (λ s' p'. p')
        (Keeps-bind (recreate_tcp_socket events) (λ _. renew) (recreate_tcp_socket-Keeps events)
          (λ _.
            recreate_broadcast_socket-Keeps events s.socket.local_advert_port
              s.socket.udp_broadcast_socket))
        s p

  refuse_request-Keeps :
      (events : Events) (because : VrcpRejectReason) (err_data : ℕ)
      → Keeps J (refuse_request events because err_data)
  refuse_request-Keeps events because err_data =
      let packet = vrcp_connection_reject_bytes (record default_vrcp_connection_reject {
        reason = reject_code because;
        reject_data = err_data;
      }) in
      Keeps-bind (reliable_send events packet) (λ _. reset_server events)
        (reliable_send-Keeps events packet) (λ _. reset_server-Keeps events)

  module _ (when_connected : J session_connected) where
    finish_accept-Keeps :
        (events : Events) (video_port : ℕ) (codec : List ℕ)
        (response : VrcpClientParams × VrcpConnectResp) (udp : UdpSocket)
        → Keeps J (finish_accept events video_port codec response udp)
    finish_accept-Keeps events video_port codec response udp =
        Keeps-bind (reliable_send events (conn_accept_packet udp.local_addr.port video_port codec))
          (λ _. enter_session response)
          (reliable_send-Keeps events (conn_accept_packet udp.local_addr.port video_port codec))
          (λ _ s' p'. when_connected)

    accept_request-Keeps :
        (events : Events) (params : VrcpServerParams) (before : VrcpClientParams) (memory : List ℕ)
        (f : RequestFields) (codec : List ℕ)
        → Keeps J (accept_request events params before memory f codec)
    accept_request-Keeps events params before memory f codec s p =
        Keeps-bind (ensure_udp_socket events s.socket.udp_socket)
          (finish_accept events params.video_port codec (
            client_params_of (conn_req_at memory) f before,
            server_response (conn_req_at memory) codec,
          ))
          (ensure_udp_socket-Keeps events s.socket.udp_socket)
          (finish_accept-Keeps events params.video_port codec (
            client_params_of (conn_req_at memory) f before,
            server_response (conn_req_at memory) codec,
          ))
          (record s {
            socket = record s.socket {
              peer_udp_addr = record {
                addr = s.socket.tcp_socket.peer_addr.addr;
                port = ntohs (conn_req_at memory).udp_vrcp_port;
              };
              udp_broadcast_socket = none;
            };
          })
          p

    answer_request-Keeps :
        (events : Events) (params : VrcpServerParams) (before : VrcpClientParams) (memory : List ℕ)
        (next : Call (Option (VrcpClientParams × VrcpConnectResp)))
        → Keeps J next
        → (j : Judgement) → Keeps J (answer_request events params before memory next j)
    answer_request-Keeps events params before memory next h (accept f codec) =
        accept_request-Keeps events params before memory f codec
    answer_request-Keeps events params before memory next h (reject because err_data) =
        Keeps-bind (refuse_request events because err_data) (λ _. next)
          (refuse_request-Keeps events because err_data) (λ _. h)
    answer_request-Keeps events params before memory next h out_of_memory = λ s p. p

    on_request-Keeps :
        (events : Events) (params : VrcpServerParams) (before : VrcpClientParams)
        (next : Call (Option (VrcpClientParams × VrcpConnectResp)))
        → Keeps J next
        → (received : Option (List ℕ)) → Keeps J (on_request events params before next received)
    on_request-Keeps events params before next h none = λ s p. p
    on_request-Keeps events params before next h (some packet) =
        let memory = packet ++ events.behind in
        Keeps-if (get_or packet 0 0 == to_u8 conn_req)
          (answer_request events params before memory next
            (judge_request params memory (length packet)))
          next
          (answer_request-Keeps events params before memory next h
            (judge_request params memory (length packet)))
          h

    pub listen_for_conn_req-Keeps :
        (events : Events) (params : VrcpServerParams) (before : VrcpClientParams)
        (rounds : List Receiving)
        → Keeps J (listen_for_conn_req events params before rounds)
    unfolding listen_for_conn_req
    listen_for_conn_req-Keeps events params before [] s p = p
    listen_for_conn_req-Keeps events params before (r ∷ rs) s p =
        Keeps-bind (receive_packet r)
          (on_request events params before (listen_for_conn_req events params before rs))
          (receive_packet-Keeps r)
          (on_request-Keeps events params before (listen_for_conn_req events params before rs)
            (listen_for_conn_req-Keeps events params before rs))
          s p
