-- ===== src/Session/Create.antt =====
-- common/src/vrcp_socket.cpp: the two kinds of `VRCPSocket`, and what a session sends over UDP.
use wireless_vr_bridge.Base.{
  ℕ, Bool, true, false, List, [], ◌∷◌, ◌++◌, Option, none, some, if◌then◌else◌,
}
use wireless_vr_bridge.Sockets.{
  SocketAddr, any_addr, Tried, returned, threw, crashed, TcpSocket, new_tcp_socket, UdpSocket,
  new_udp_socket,
}
use wireless_vr_bridge.VrcpSocket.{empty_reception}
use wireless_vr_bridge.Session.{VrcpSocketData, awaiting_connection, Call, ◌>>=◌, look, over_udp}

abbrev pub with_sockets :
    (TcpSocket → UdpSocket → VrcpSocketData)
    → Option SocketAddr
    → Option SocketAddr
    → Tried VrcpSocketData
with_sockets make none udp = threw
with_sockets make (some tcp) none = threw
with_sockets make (some tcp) (some udp) = returned (make (new_tcp_socket tcp) (new_udp_socket udp))

-- `bound` is the address at which the system binds a socket for a port.
unfoldable pub create_server : (ℕ → Option SocketAddr) → ℕ → ℕ → ℕ → ℕ → ℕ → Tried VrcpSocketData
create_server bound advertisement_interval_sec tcp_port udp_vrcp_port local_advert_port
      udp_advert_port =
    with_sockets
      (λ tcp udp. record {
        state = awaiting_connection;
        tcp_socket = tcp;
        udp_socket = none;
        udp_broadcast_socket = some udp;
        is_server = true;
        advertisement_interval_sec = advertisement_interval_sec;
        local_advert_port = local_advert_port;
        udp_advert_port = udp_advert_port;
        udp_vrcp_port = udp_vrcp_port;
        peer_udp_addr = any_addr;
        last_advertisement_time = 0;
        server_candidates = [];
        tcp_reception = empty_reception;
        udp_reception = empty_reception;
      })
      (bound tcp_port) (bound local_advert_port)

unfoldable pub create_client : (ℕ → Option SocketAddr) → ℕ → ℕ → ℕ → Tried VrcpSocketData
create_client bound tcp_port udp_vrcp_port udp_advert_port =
    with_sockets
      (λ tcp udp. record {
        state = awaiting_connection;
        tcp_socket = tcp;
        udp_socket = none;
        udp_broadcast_socket = some udp;
        is_server = false;
        advertisement_interval_sec = 0;
        local_advert_port = 0;
        udp_advert_port = udp_advert_port;
        udp_vrcp_port = udp_vrcp_port;
        peer_udp_addr = any_addr;
        last_advertisement_time = 0;
        server_candidates = [];
        tcp_reception = empty_reception;
        udp_reception = empty_reception;
      })
      (bound tcp_port) (bound udp_advert_port)

-- `accepts`: whether the system's `sendto` succeeds.
abbrev pub send_to_peer : Bool → List ℕ → SocketAddr → Option UdpSocket → Call Bool
send_to_peer accepts packet peer none s = (s, crashed)
send_to_peer accepts packet peer (some u) s =
    if u.is_open
    then (if accepts
        then (record s { sent = s.sent ++ over_udp peer packet ∷ [] }, returned true)
        else (s, returned false))
    else (s, returned false)

unfoldable pub unreliable_send : Bool → List ℕ → Call Bool
unreliable_send accepts packet =
    look >>= λ d. send_to_peer accepts packet d.peer_udp_addr d.udp_socket
