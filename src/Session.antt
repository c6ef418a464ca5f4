-- ===== src/Session.antt =====
-- common/src/vrcp_socket.cpp: the state of a `VRCPSocket` and the calls that open, reset and close its
-- session. A call is a function of what the system gives it, the events, from a state to a state and
-- to how it ends; an exception leaves the state as the statements before it made it.
pub mod Server
pub mod Client
pub mod Keeps
pub mod Forward
pub mod Refused
pub mod Rounds
pub mod Opened
pub mod Joined
pub mod ResetClient
pub mod Candidates
pub mod Heard
pub mod Create
mod Tests
use wireless_vr_bridge.Base.{
  ℕ, zero, suc, ◌+◌, Bool, true, false, List, [], ◌∷◌, ◌++◌, Option, none, some, if◌then◌else◌,
  ◌==◌, take,
}
use wireless_vr_bridge.Sockets.{
  SocketAddr, any_addr, Tried, returned, threw, crashed, unfinished, TcpSocket, new_tcp_socket,
  tcp_close, tcp_receive, tcp_send, refresh_state, is_connected_state, UdpSocket, new_udp_socket,
  udp_close, Accepting, Connecting, Receiving, Sending,
}
use wireless_vr_bridge.VrcpSocket.{
  Reception, empty_reception, next_tcp_packet, move_to_front, receive_at_tail,
}

pub data VrcpSocketState : Type 0 where
  awaiting_connection negotiating session_connected session_closed : VrcpSocketState

abbrev pub is_awaiting : VrcpSocketState → Bool
is_awaiting awaiting_connection = true
is_awaiting _ = false

abbrev pub is_negotiating : VrcpSocketState → Bool
is_negotiating negotiating = true
is_negotiating _ = false

abbrev pub is_session_connected : VrcpSocketState → Bool
is_session_connected session_connected = true
is_session_connected _ = false

pub record VrcpServerCandidate : Type 0 where
  pub addr : SocketAddr
  pub timestamp : ℕ
  pub interval : ℕ

-- `VRCPSocket::Data`. A UDP socket is `none` until it is constructed; the TCP socket always is.
pub record VrcpSocketData : Type 0 where
  pub state : VrcpSocketState
  pub tcp_socket : TcpSocket
  pub udp_socket : Option UdpSocket
  pub udp_broadcast_socket : Option UdpSocket
  pub is_server : Bool
  pub advertisement_interval_sec : ℕ
  pub local_advert_port : ℕ
  pub udp_advert_port : ℕ
  pub udp_vrcp_port : ℕ
  pub peer_udp_addr : SocketAddr
  pub last_advertisement_time : ℕ
  pub server_candidates : List VrcpServerCandidate
  pub tcp_reception : Reception
  pub udp_reception : Reception

-- What is handed to the system.
pub data Sent : Type 0 where
  over_tcp : List ℕ → Sent
  over_udp : SocketAddr → List ℕ → Sent

pub record Session : Type 0 where
  pub socket : VrcpSocketData
  pub sent : List Sent

-- What the system gives to one call: `bound` is the address at which it binds a new socket for a port,
-- if it does; `behind` what stands in memory behind a packet; `receiving` has one entry for each call of
-- `reliable_receive`, which does not look at it when a packet is in the buffer.
pub record Events : Type 0 where
  pub listens : Bool
  pub accepting : Accepting
  pub connecting : Connecting
  pub now : ℕ
  pub bound : ℕ → Option SocketAddr
  pub sending : List Sending
  pub receiving : List Receiving
  pub behind : List ℕ

abbrev pub Call : Type 0 → Type 0
Call A = Session → Session × Tried A

abbrev pub then_call : {A B : Type 0} → (A → Call B) → Session × Tried A → Session × Tried B
then_call f (s, returned a) = f a s
then_call f (s, threw) = (s, threw)
then_call f (s, crashed) = (s, crashed)
then_call f (s, unfinished) = (s, unfinished)

infixl 2 ◌>>=◌
abbrev pub ◌>>=◌ : {A B : Type 0} → Call A → (A → Call B) → Call B
(c >>= f) s = then_call f (c s)

abbrev pub give : {A : Type 0} → A → Call A
give a s = (s, returned a)

abbrev pub throw : {A : Type 0} → Call A
throw s = (s, threw)

abbrev pub crash : {A : Type 0} → Call A
crash s = (s, crashed)

abbrev pub look : Call VrcpSocketData
look s = (s, returned s.socket)

abbrev pub change : (VrcpSocketData → VrcpSocketData) → Call Unit
change f s = (record s { socket = f s.socket }, returned tt)

abbrev pub on_tcp : {A : Type 0} → TcpSocket × Tried A → Call A
on_tcp (tcp, outcome) s = (record s { socket = record s.socket { tcp_socket = tcp } }, outcome)

-- A constructor of a socket, with its `bind`.
abbrev pub construct : {A : Type 0} → (SocketAddr → A) → Option SocketAddr → Call A
construct make none = throw
construct make (some here) = give (make here)

-- What the system took is what is sent.
abbrev pub sent_some : List ℕ → Tried ℕ → Call Unit
sent_some packet (returned n) s =
    (record s { sent = s.sent ++ over_tcp (take n packet) ∷ [] }, returned tt)
sent_some packet threw s = (s, threw)
sent_some packet crashed s = (s, crashed)
sent_some packet unfinished s = (s, unfinished)

abbrev pub reliable_send : Events → List ℕ → Call Unit
reliable_send events packet =
    look >>= λ d. sent_some packet (tcp_send events.sending packet d.tcp_socket)

abbrev pub after_receive : Reception → Option (List ℕ) → Call (Option (List ℕ))
after_receive reception received s =
    let r = receive_at_tail received reception in
    (record s { socket = record s.socket { tcp_reception = r.1 } }, returned r.0)

-- `reliable_receive`, with the socket's own `receive`.
abbrev pub receive_or_give : Receiving → Option (List ℕ) × Reception → Call (Option (List ℕ))
receive_or_give r (some packet, reception) =
    change (λ d. record d { tcp_reception = reception }) >>= λ _. give (some packet)
receive_or_give r (none, reception) =
    change (λ d. record d { tcp_reception = move_to_front reception }) >>= λ _.
    look >>= λ d. on_tcp (tcp_receive r d.tcp_socket) >>= after_receive (move_to_front reception)

unfoldable pub receive_packet : Receiving → Call (Option (List ℕ))
receive_packet r = look >>= λ d. receive_or_give r (next_tcp_packet d.tcp_reception)
