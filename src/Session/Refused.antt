-- ===== src/Session/Refused.antt =====
-- A server's `VRCPSocket` after it has refused a client: `reset_server` makes the TCP socket again, but
-- leaves the state as it is.
use wireless_vr_bridge.Base.{
  if_both, take, ◌==◌, ℕ, ◌≡◌, refl, sym, ap, arith, Bool, true, false, List, [], ◌∷◌, ◌++◌, none,
  some, if◌then◌else◌, ltb, leb, sub64,
}
use mathlib.Core.Path.{subst}
use wireless_vr_bridge.Sockets.{
  crashed, unfinished, new_tcp_socket, SocketAddr, UdpSocket, tcp_send, Tried, returned, threw,
  Receiving, TcpSocket, not_started, is_connected_state, tcp_receive,
}
use wireless_vr_bridge.Vrcp.{VrcpRejectReason}
use wireless_vr_bridge.Handshake.{VrcpClientParams, VrcpServerParams}
use wireless_vr_bridge.VrcpSocket.{Reception, next_tcp_packet, move_to_front}
use wireless_vr_bridge.Handshake.Judge.{reject}
use wireless_vr_bridge.Session.{
  over_tcp, VrcpSocketData, negotiating, is_awaiting, is_negotiating, Session, Events, Call, give,
  throw, then_call, receive_packet,
}
use wireless_vr_bridge.Session.Server.{
  listen, listen_for_conn_req, negotiate, reset_server, is_empty_list, on_request, refuse_request,
  answer_request, reject_packet, replace_broadcast_socket, reset_server,
}

-- What a refusal leaves: a TCP socket that is new, and the state that waits for a request.
pub record IsStuck (d : VrcpSocketData) : Type 0 where
  pub state : d.state ≡ negotiating
  pub fresh_socket : d.tcp_socket.state ≡ not_started
  pub empty_head : d.tcp_reception.head ≡ 0
  pub empty_tail : d.tcp_reception.tail ≡ 0

nothing_pending : (d : Reception) → d.head ≡ 0 → d.tail ≡ 0 → next_tcp_packet d ≡ (none, d)
unfolding next_tcp_packet
nothing_pending d h t =
    let short : leb 4 (sub64 d.tail d.head) ≡ false = ground arith in rw short refl

already_in_front : (d : Reception) → d.head ≡ 0 → move_to_front d ≡ d
unfolding move_to_front
already_in_front d h = let at_0 : ltb 0 d.head ≡ false = ground arith in rw at_0 refl

fresh_socket-throws :
    (r : Receiving) (tcp : TcpSocket) → tcp.state ≡ not_started → tcp_receive r tcp ≡ (tcp, threw)
unfolding tcp_receive
fresh_socket-throws r tcp h =
    let off : is_connected_state tcp.state ≡ false = ap is_connected_state h in rw off refl

receive_packet-IsStuck :
    (r : Receiving) (s : Session) → IsStuck s.socket → receive_packet r s ≡ (s, threw)
unfolding receive_packet
receive_packet-IsStuck r s h =
    rw
      (
        nothing_pending s.socket.tcp_reception h.empty_head h.empty_tail,
        already_in_front s.socket.tcp_reception h.empty_head,
        fresh_socket-throws r s.socket.tcp_socket h.fresh_socket,
      )
      refl

loop-IsStuck :
    (events : Events) (params : VrcpServerParams) (before : VrcpClientParams) (r : Receiving)
    (rs : List Receiving) (s : Session)
    → IsStuck s.socket
    → listen_for_conn_req events params before (r ∷ rs) s ≡ (s, threw)
unfolding listen_for_conn_req
loop-IsStuck events params before r rs s h =
    ap (then_call (on_request events params before (listen_for_conn_req events params before rs)))
      (receive_packet-IsStuck r s h)

either_throws :
    {A : Type 0} (b : Bool) (c : Call A) (s : Session)
    → c s ≡ (s, threw)
    → (if b then throw else c) s ≡ (s, threw)
either_throws true c s h = refl
either_throws false c s h = h

-- A socket that is stuck stays so: `listen`, if it comes to receive anything, throws and changes
-- nothing, whatever the system would give it.
pub listen-IsStuck :
    (bcast_addrs : List ℕ) (events : Events) (params : VrcpServerParams) (before : VrcpClientParams)
    (r : Receiving) (rs : List Receiving) (s : Session)
    → IsStuck s.socket
    → events.receiving ≡ r ∷ rs
    → listen bcast_addrs events params before s ≡ (s, threw)
unfolding listen
listen-IsStuck bcast_addrs events params before r rs s h e =
    let not_awaiting : is_awaiting s.socket.state ≡ false = ap is_awaiting h.state in
    let waits : is_negotiating s.socket.state ≡ true = ap is_negotiating h.state in
    let negotiation : negotiate events params before s ≡ (s, threw) = rw waits (
      subst (λ rounds. listen_for_conn_req events params before rounds s ≡ (s, threw)) (sym e)
        (loop-IsStuck events params before r rs s h)) in
    rw (not_awaiting, waits)
      (either_throws (is_empty_list params.supported_video_codecs) (negotiate events params before)
        s negotiation)

-- What the system does for a refusal: it takes the packet, or a part of it, and binds the new sockets.
pub record CanRefuse (events : Events) (because : VrcpRejectReason) (err_data : ℕ)
    (d : VrcpSocketData) : Type 0 where
  pub state : d.state ≡ negotiating
  pub taken : ℕ
  pub takes : tcp_send events.sending (reject_packet because err_data) d.tcp_socket ≡ returned taken
  pub broadcast : UdpSocket
  pub has_broadcast : d.udp_broadcast_socket ≡ some broadcast
  pub tcp_addr : SocketAddr
  pub binds_tcp : events.bound d.tcp_socket.local_addr.port ≡ some tcp_addr
  pub udp_addr : SocketAddr
  pub binds_udp : events.bound d.local_advert_port ≡ some udp_addr

abbrev pub EndsStuck : {A : Type 0} → Tried A → Session × Tried A → Type 0
EndsStuck outcome r = (r.1 ≡ outcome) × IsStuck r.0.socket

refuse_request-IsStuck :
    (events : Events) (because : VrcpRejectReason) (err_data : ℕ) (s : Session)
    → CanRefuse events because err_data s.socket
    → EndsStuck (returned tt) (refuse_request events because err_data s)
unfolding reset_server
refuse_request-IsStuck events because err_data s h =
    let not_awaiting : is_awaiting s.socket.state ≡ false = ap is_awaiting h.state in
    let renewed = record s {
      socket = record s.socket {
        tcp_socket = new_tcp_socket h.tcp_addr;
        udp_broadcast_socket = some h.broadcast;
        tcp_reception = record s.socket.tcp_reception { head = 0; tail = 0 };
      };
      sent = s.sent ++ over_tcp (take h.taken (reject_packet because err_data)) ∷ [];
    } in
    rw (h.takes, not_awaiting, h.binds_tcp, h.has_broadcast)
      (if_both (λ c. EndsStuck (returned tt) (c renewed))
        (h.broadcast.local_addr.port == s.socket.local_advert_port) (give tt)
        (replace_broadcast_socket events s.socket.local_advert_port h.broadcast)
        (λ same. (
          refl,
          record { state = h.state; fresh_socket = refl; empty_head = refl; empty_tail = refl },
        ))
        (λ other. rw h.binds_udp (
          refl,
          record { state = h.state; fresh_socket = refl; empty_head = refl; empty_tail = refl },
        )))

EndsStuck-then :
    {A : Type 0} (next : Call A) (r : Session × Tried Unit)
    → EndsStuck (returned tt) r
    → ((s : Session) → IsStuck s.socket → next s ≡ (s, threw))
    → EndsStuck threw (then_call (λ _. next) r)
EndsStuck-then next (s, returned tt) h k = subst (EndsStuck threw) (sym (k s h.1)) (refl, h.1)
EndsStuck-then next (s, threw) h k = let e : threw ≡ returned tt = h.0 in cc
EndsStuck-then next (s, crashed) h k = let e : crashed ≡ returned tt = h.0 in cc
EndsStuck-then next (s, unfinished) h k = let e : unfinished ≡ returned tt = h.0 in cc

-- When the server refuses a request, and the system takes the answer and binds the new sockets, the
-- call of `listen` ends with an exception in its next round, and leaves the socket stuck: NEGOTIATING on
-- a TCP socket that neither listens nor is connected.
pub refused-IsStuck :
    (events : Events) (params : VrcpServerParams) (before : VrcpClientParams) (memory : List ℕ)
    (because : VrcpRejectReason) (err_data : ℕ) (r : Receiving) (rs : List Receiving) (s : Session)
    → CanRefuse events because err_data s.socket
    → EndsStuck threw (
        answer_request events params before memory
          (listen_for_conn_req events params before (r ∷ rs))
          (reject because err_data)
          s)
refused-IsStuck events params before memory because err_data r rs s h =
    EndsStuck-then (listen_for_conn_req events params before (r ∷ rs))
      (refuse_request events because err_data s)
      (refuse_request-IsStuck events because err_data s h) (loop-IsStuck events params before r rs)
