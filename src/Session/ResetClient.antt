-- ===== src/Session/ResetClient.antt =====
-- The client's side: what `reset_client` does to a client that is refused, and to one that has joined.
use wireless_vr_bridge.Base.{
  ==_iff, ℕ, ◌≡◌, refl, ap, true, false, List, Option, some, ◌==◌, get_or, if_both,
}
use wireless_vr_bridge.Sockets.{
  returned, SocketAddr, Tried, threw, crashed, UdpSocket, new_tcp_socket, new_udp_socket,
  not_started,
}
use wireless_vr_bridge.Handshake.{VrcpClientParams, VrcpConnectResp}
use wireless_vr_bridge.Session.{
  VrcpSocketData, awaiting_connection, negotiating, is_awaiting, Session, Events, Call, then_call,
  ◌>>=◌, give, throw,
}
use wireless_vr_bridge.Session.Server.{reset_client, replace_broadcast_socket, start_again}
use wireless_vr_bridge.Session.Client.{connect, on_response}
use wireless_vr_bridge.Session.Joined.{WhenJoined, connect-HasJoined}
use wireless_vr_bridge.Session.Rounds.{OnReturn-at}

-- What the system does for the reset of a client that waits for its answer: the sockets are bound, the
-- broadcast socket at the port that was asked for.
pub record CanRestart (events : Events) (d : VrcpSocketData) : Type 0 where
  pub state : d.state ≡ negotiating
  pub broadcast : UdpSocket
  pub has_broadcast : d.udp_broadcast_socket ≡ some broadcast
  pub open_broadcast : broadcast.is_open ≡ true
  pub tcp_addr : SocketAddr
  pub binds_tcp : events.bound d.tcp_socket.local_addr.port ≡ some tcp_addr
  pub udp_addr : SocketAddr
  pub binds_udp : events.bound d.udp_advert_port ≡ some udp_addr
  pub at_port : udp_addr.port ≡ d.udp_advert_port

-- A client that listens for the advertisements at a port and can connect again.
pub record IsRestarted (port : ℕ) (d : VrcpSocketData) : Type 0 where
  pub state : d.state ≡ awaiting_connection
  pub fresh_socket : d.tcp_socket.state ≡ not_started
  pub empty_head : d.tcp_reception.head ≡ 0
  pub empty_tail : d.tcp_reception.tail ≡ 0
  pub empty_udp_head : d.udp_reception.head ≡ 0
  pub empty_udp_tail : d.udp_reception.tail ≡ 0
  pub listener : UdpSocket
  pub has_listener : d.udp_broadcast_socket ≡ some listener
  pub open_listener : listener.is_open ≡ true
  pub listens_at : listener.local_addr.port ≡ port

abbrev pub EndsRestarted : {A : Type 0} → Tried A → ℕ → Session × Tried A → Type 0
EndsRestarted outcome port r = (r.1 ≡ outcome) × IsRestarted port r.0.socket

restarted :
    (port : ℕ) (u : UdpSocket) (d : VrcpSocketData)
    → d.tcp_socket.state ≡ not_started
    → d.tcp_reception.head ≡ 0
    → d.tcp_reception.tail ≡ 0
    → d.udp_broadcast_socket ≡ some u
    → u.is_open ≡ true
    → u.local_addr.port ≡ port
    → IsRestarted port (record d {
      udp_reception = record d.udp_reception { head = 0; tail = 0 };
      state = awaiting_connection;
    })
restarted port u d h i j k l m = record {
  state = refl;
  fresh_socket = h;
  empty_head = i;
  empty_tail = j;
  empty_udp_head = refl;
  empty_udp_tail = refl;
  listener = u;
  has_listener = k;
  open_listener = l;
  listens_at = m;
}

reset_client-IsRestarted :
    (events : Events) (s : Session)
    → CanRestart events s.socket
    → EndsRestarted threw s.socket.udp_advert_port
        ((reset_client events >>= λ _. throw {A = Option VrcpConnectResp}) s)
unfolding reset_client
reset_client-IsRestarted events s h =
    let waiting : is_awaiting s.socket.state ≡ false = ap is_awaiting h.state in
    let renewed = record s {
      socket = record s.socket {
        tcp_socket = new_tcp_socket h.tcp_addr;
        udp_broadcast_socket = some h.broadcast;
        tcp_reception = record s.socket.tcp_reception { head = 0; tail = 0 };
      };
    } in
    rw (waiting, h.binds_tcp, h.has_broadcast)
      (if_both
        (λ c. EndsRestarted threw s.socket.udp_advert_port (
          then_call (λ _. throw {A = Option VrcpConnectResp})
            (then_call (λ _. start_again) (c renewed))))
        (h.broadcast.local_addr.port == s.socket.udp_advert_port) (give tt)
        (replace_broadcast_socket events s.socket.udp_advert_port h.broadcast)
        (λ same. (
          refl,
          restarted s.socket.udp_advert_port h.broadcast renewed.socket refl refl refl refl
              h.open_broadcast
              ((==_iff h.broadcast.local_addr.port s.socket.udp_advert_port).0 same),
        ))
        (λ other. rw h.binds_udp (
          refl,
          restarted s.socket.udp_advert_port (new_udp_socket h.udp_addr)
              (record renewed.socket { udp_broadcast_socket = some (new_udp_socket h.udp_addr) })
              refl refl refl refl refl h.at_port,
        )))

-- A client that receives a CONN_REJECT while it waits for the answer, where the system binds the new
-- sockets, throws, and can look for servers and connect again: it is AWAITING_CONNECTION with a new TCP
-- socket, empty buffers, and an open broadcast socket at the port of the advertisements.
pub rejected-IsRestarted :
    (events : Events) (params : VrcpClientParams) (next : Call (Option VrcpConnectResp))
    (packet : List ℕ) (s : Session)
    → get_or packet 0 0 ≡ 3
    → CanRestart events s.socket
    → EndsRestarted threw s.socket.udp_advert_port (on_response events params next (some packet) s)
rejected-IsRestarted events params next packet s e h = rw e (reset_client-IsRestarted events s h)

module _ (events : Events) (params : VrcpClientParams) where
  -- After a call of `connect` that returned true, `reset_client` does not come to its end: where the
  -- system binds the new TCP socket, it closes a broadcast socket that is not valid, through a null
  -- pointer.
  pub joined_reset_client-crashes :
      (addr : SocketAddr) (fresh : List ℕ) (s : Session) (resp : VrcpConnectResp)
      (later_events : Events) (tcp_addr : SocketAddr)
      → (connect addr events params fresh s).1 ≡ returned (some resp)
      → later_events.bound (connect addr events params fresh s).0.socket.tcp_socket.local_addr.port
        ≡ some tcp_addr
      → (reset_client later_events (connect addr events params fresh s).0).1 ≡ crashed
  unfolding reset_client
  joined_reset_client-crashes addr fresh s resp later_events tcp_addr h e =
      let (start, begun, session) =
        OnReturn-at (WhenJoined events params addr fresh s) (connect addr events params fresh s)
          (some resp) (connect-HasJoined events params addr fresh s) h in
      let joined : is_awaiting (connect addr events params fresh s).0.socket.state ≡ false =
        ap is_awaiting session.state in
      rw (joined, e, session.no_broadcast) refl
