-- ===== src/Sockets.antt =====
-- common/include/wvb_common/socket.h, socket_addr.h and common/src/socket_posix.cpp: the non-blocking TCP
-- and UDP sockets. What a system call returns is a parameter; the counters of the measurements bucket
-- are left out.
use wireless_vr_bridge.Base.{
  ℕ, ◌+◌, ◌==◌, Bool, true, false, List, [], ◌∷◌, Option, none, some, if◌then◌else◌, length,
}

pub record SocketAddr : Type 0 where
  pub addr : ℕ
  pub port : ℕ

abbrev pub any_addr : SocketAddr
any_addr = record { addr = 0; port = 0 }

-- How a call ends. `crashed` is a null pointer that is followed, or memory that is not the program's;
-- `unfinished` a call that needs more events than the run gives.
pub data Tried (A : Type 0) : Type 0 where
  returned : A → Tried A
  threw crashed unfinished : Tried A

pub data TcpSocketState : Type 0 where
  not_started listening connecting connected tcp_closed : TcpSocketState

abbrev pub is_not_started : TcpSocketState → Bool
is_not_started not_started = true
is_not_started _ = false

abbrev pub is_listening : TcpSocketState → Bool
is_listening listening = true
is_listening _ = false

abbrev pub is_connecting : TcpSocketState → Bool
is_connecting connecting = true
is_connecting _ = false

abbrev pub is_connected_state : TcpSocketState → Bool
is_connected_state connected = true
is_connected_state _ = false

-- `is_open`: the descriptor is not `INVALID_SOCKET`.
pub record TcpSocket : Type 0 where
  pub is_open : Bool
  pub state : TcpSocketState
  pub local_addr : SocketAddr
  pub peer_addr : SocketAddr

-- The constructor: the address that the system bound it to.
abbrev pub new_tcp_socket : SocketAddr → TcpSocket
new_tcp_socket local_addr = record {
  is_open = true;
  state = not_started;
  local_addr = local_addr;
  peer_addr = any_addr;
}

abbrev pub tcp_close : TcpSocket → TcpSocket
tcp_close s = if s.is_open then record s { is_open = false; state = tcp_closed } else s

-- `accept`, and what follows on the new descriptor: `unnamed` is a failure of `getsockname`.
pub data Accepting : Type 0 where
  no_client accept_failed not_configured : Accepting
  unnamed : SocketAddr → Accepting
  client : SocketAddr → SocketAddr → Accepting

-- `listens`: whether the system's `listen` succeeds.
abbrev pub start_listening : Bool → TcpSocket → TcpSocket × Tried Unit
start_listening listens s =
    if is_not_started s.state
    then (if listens then (record s { state = listening }, returned tt) else (s, threw))
    else (s, returned tt)

abbrev pub accept_client : Accepting → TcpSocket → TcpSocket × Tried Bool
accept_client no_client s = (s, returned false)
accept_client accept_failed s = (s, threw)
accept_client not_configured s = (s, threw)
accept_client (unnamed peer) s = (record s { peer_addr = peer }, threw)
accept_client (client peer here) s =
    (record s { state = connected; peer_addr = peer; local_addr = here }, returned true)

abbrev pub listen_further : Accepting → TcpSocket × Tried Unit → TcpSocket × Tried Bool
listen_further a (s, returned _) = if is_listening s.state then accept_client a s else (s, threw)
listen_further a (s, threw) = (s, threw)
listen_further a (s, crashed) = (s, crashed)
listen_further a (s, unfinished) = (s, unfinished)

unfoldable pub tcp_listen : Bool → Accepting → TcpSocket → TcpSocket × Tried Bool
tcp_listen listens a s = listen_further a (start_listening listens s)

-- `connect`: success or `EISCONN`, an error that means "not yet", and any other.
pub data Connecting : Type 0 where
  established not_yet connect_failed : Connecting

abbrev pub try_connect : Connecting → SocketAddr → TcpSocket → TcpSocket × Tried Bool
try_connect established addr s = (record s { state = connected; peer_addr = addr }, returned true)
try_connect not_yet addr s = (s, returned false)
try_connect connect_failed addr s = (s, threw)

unfoldable pub tcp_connect : Connecting → SocketAddr → TcpSocket → TcpSocket × Tried Bool
tcp_connect c addr s =
    let started = if is_not_started s.state then record s { state = connecting } else s in
    if is_connecting started.state then try_connect c addr started else (started, threw)

-- `recv`: bytes, of which there are none when the peer has closed; `ECONNRESET`; an error that means "not
-- yet"; and any other.
pub data Receiving : Type 0 where
  bytes : List ℕ → Receiving
  connection_reset nothing_new receive_failed : Receiving

abbrev pub received_from : Receiving → TcpSocket → TcpSocket × Tried (Option (List ℕ))
received_from (bytes bs) s = (s, returned (some bs))
received_from connection_reset s = (tcp_close s, returned none)
received_from nothing_new s = (s, returned none)
received_from receive_failed s = (s, threw)

unfoldable pub tcp_receive : Receiving → TcpSocket → TcpSocket × Tried (Option (List ℕ))
tcp_receive r s = if is_connected_state s.state then received_from r s else (s, threw)

-- The `recv` of one byte that stays in the queue. `connection_reset` is an error like any other here.
abbrev pub peeked : Receiving → TcpSocket → TcpSocket
peeked (bytes []) s = tcp_close s
peeked (bytes (b ∷ bs)) s = s
peeked connection_reset s = tcp_close s
peeked nothing_new s = s
peeked receive_failed s = tcp_close s

unfoldable pub refresh_state : Receiving → TcpSocket → TcpSocket
refresh_state r s = if is_connected_state s.state then peeked r s else s

-- One `send`: what it took, an error that means "not yet", or any other.
pub data Sending : Type 0 where
  took : ℕ → Sending
  try_again send_failed : Sending

-- The loop of `TCPSocket::send`, one round for each `send` before the time is over; the result is the
-- number of bytes that were taken. A timeout is reported to no caller.
unfoldable pub send_loop : List Sending → ℕ → ℕ → Tried ℕ
send_loop [] sent size = returned sent
send_loop (took n ∷ rounds) sent size =
    let rest = send_loop rounds (sent + n) size in
    if sent + n == size then returned (sent + n) else rest
send_loop (try_again ∷ rounds) sent size = send_loop rounds sent size
send_loop (send_failed ∷ rounds) sent size = threw

unfoldable pub tcp_send : List Sending → List ℕ → TcpSocket → Tried ℕ
unfolding send_loop
tcp_send rounds packet s =
    if is_connected_state s.state then send_loop rounds 0 (length packet) else threw

-- A UDP socket that has been constructed. The default constructor makes none.
pub record UdpSocket : Type 0 where
  pub is_open : Bool
  pub local_addr : SocketAddr

abbrev pub new_udp_socket : SocketAddr → UdpSocket
new_udp_socket local_addr = record { is_open = true; local_addr = local_addr }

abbrev pub udp_close : UdpSocket → UdpSocket
udp_close s = record s { is_open = false }
