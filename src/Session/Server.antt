-- ===== src/Session/Server.antt =====
-- common/src/vrcp_socket.cpp: the server's side of a session, from the advertisement to the CONN_ACCEPT,
-- and the calls of both sides that reset and close it.
use wireless_vr_bridge.Base.{
  ℕ, Bool, true, false, not, ◌&&◌, ◌||◌, List, [], ◌∷◌, ◌++◌, Option, none, some, if◌then◌else◌,
  leb, ◌==◌, get_or, length, sub32, u32,
}
use wireless_vr_bridge.Network.{htons, htonl, ntohs}
use wireless_vr_bridge.Vrcp.{to_u8, conn_req, VrcpRejectReason, reject_code}
use wireless_vr_bridge.Vrcp.Control.{
  default_vrcp_server_advertisement, vrcp_server_advertisement_bytes,
  default_vrcp_connection_reject, vrcp_connection_reject_bytes,
}
use wireless_vr_bridge.Sockets.{
  SocketAddr, TcpSocket, new_tcp_socket, tcp_close, tcp_listen, refresh_state, is_connected_state,
  UdpSocket, new_udp_socket, udp_close, Receiving, returned, crashed, unfinished,
}
use wireless_vr_bridge.Handshake.{VrcpClientParams, VrcpServerParams, VrcpConnectResp}
use wireless_vr_bridge.Handshake.Fields.{RequestFields}
use wireless_vr_bridge.Handshake.Request.{conn_req_at, conn_accept_packet}
use wireless_vr_bridge.Handshake.Judge.{
  Judgement, accept, reject, out_of_memory, judge_request, client_params_of, server_response,
}
use wireless_vr_bridge.Session.{
  VrcpSocketData, awaiting_connection, negotiating, session_connected, session_closed, is_awaiting,
  is_negotiating, is_session_connected, Events, over_udp, Call, ◌>>=◌, give, throw, crash, look,
  change, on_tcp, construct, reliable_send, receive_packet,
}

abbrev pub broadcast : List ℕ → SocketAddr → Option UdpSocket → Call Unit
broadcast packet addr none s = (s, crashed)
broadcast packet addr (some u) s = (
  record s { sent = if u.is_open then s.sent ++ over_udp addr packet ∷ [] else s.sent },
  returned tt,
)

-- One round for each broadcast address. A send that fails is not reported.
abbrev pub advertise_to : List ℕ → ℕ → List ℕ → Call Unit
advertise_to packet port [] = give tt
advertise_to packet port (addr ∷ addrs) = look >>= λ d.
    broadcast packet (record { addr = addr; port = port }) d.udp_broadcast_socket >>= λ _.
    advertise_to packet port addrs

abbrev pub advertisement_of : ℕ → VrcpSocketData → List ℕ
advertisement_of now d = vrcp_server_advertisement_bytes (record default_vrcp_server_advertisement {
  tcp_port = htons d.tcp_socket.local_addr.port;
  interval = d.advertisement_interval_sec;
  timestamp = htonl now;
})

-- `now` is cut to 32 bits, and its distance from the last advertisement wraps.
abbrev pub advertise : List ℕ → ℕ → Call Bool
advertise bcast_addrs now = look >>= λ d.
    if leb d.advertisement_interval_sec (sub32 now d.last_advertisement_time)
    then (change (λ d'. record d' { last_advertisement_time = now }) >>= λ _.
        advertise_to (advertisement_of now d) d.udp_advert_port bcast_addrs >>= λ _. give false)
    else give false

unfoldable pub listen_for_tcp_connection : List ℕ → Events → Call Bool
listen_for_tcp_connection bcast_addrs events = look >>= λ d.
    on_tcp (tcp_listen events.listens events.accepting d.tcp_socket) >>= λ connected.
    if connected
    then (change (λ d'. record d' { state = negotiating }) >>= λ _. give true)
    else advertise bcast_addrs (u32 events.now)

abbrev pub store_tcp_socket : TcpSocket → Call Unit
store_tcp_socket tcp = change (λ d. record d {
  tcp_socket = tcp;
  tcp_reception = record d.tcp_reception { head = 0; tail = 0 };
})

-- The TCP socket is closed and made again for the same port, and its buffer emptied.
abbrev pub recreate_tcp_socket : Events → Call Unit
recreate_tcp_socket events = look >>= λ d.
    change (λ d'. record d' { tcp_socket = tcp_close d'.tcp_socket }) >>= λ _.
    construct new_tcp_socket (events.bound d.tcp_socket.local_addr.port) >>= store_tcp_socket

abbrev pub store_broadcast_socket : UdpSocket → Call Unit
store_broadcast_socket socket = change (λ d. record d { udp_broadcast_socket = some socket })

abbrev pub replace_broadcast_socket : Events → ℕ → UdpSocket → Call Unit
replace_broadcast_socket events port u =
    change (λ d. record d { udp_broadcast_socket = some (udp_close u) }) >>= λ _.
    construct new_udp_socket (events.bound port) >>= store_broadcast_socket

-- The broadcast socket is made again, unless it has the port already. A socket that is not valid is
-- closed like one that is, through a null pointer.
abbrev pub recreate_broadcast_socket : Events → ℕ → Option UdpSocket → Call Unit
recreate_broadcast_socket events port none = crash
recreate_broadcast_socket events port (some u) =
    if u.local_addr.port == port then give tt else replace_broadcast_socket events port u

unfoldable pub reset_server : Events → Call Unit
reset_server events = look >>= λ d.
    if is_awaiting d.state
    then give tt
    else recreate_tcp_socket events >>= λ _.
        recreate_broadcast_socket events d.local_advert_port d.udp_broadcast_socket

abbrev pub start_again : Call Unit
start_again = change (λ d. record d {
  udp_reception = record d.udp_reception { head = 0; tail = 0 };
  state = awaiting_connection;
})

unfoldable pub reset_client : Events → Call Unit
reset_client events = look >>= λ d.
    if is_awaiting d.state
    then give tt
    else recreate_tcp_socket events >>= λ _.
        recreate_broadcast_socket events d.udp_advert_port d.udp_broadcast_socket >>= λ _.
        start_again

abbrev pub close_udp : Option UdpSocket → Option UdpSocket
close_udp none = none
close_udp (some u) = some (udp_close u)

unfoldable pub close : Call Unit
close = change (λ d. record d {
  tcp_socket = tcp_close d.tcp_socket;
  udp_socket = close_udp d.udp_socket;
  udp_broadcast_socket = close_udp d.udp_broadcast_socket;
  state = session_closed;
})

unfoldable pub is_connected_refresh : Receiving → Call Bool
is_connected_refresh r = look >>= λ d.
    if is_session_connected d.state
    then (on_tcp (refresh_state r d.tcp_socket, returned tt) >>= λ _. look >>= λ d'.
        if is_connected_state d'.tcp_socket.state then give true else (close >>= λ _. give false))
    else give false

unfoldable pub is_connected : VrcpSocketData → Bool
is_connected d = is_session_connected d.state && is_connected_state d.tcp_socket.state

abbrev pub store_udp_socket : UdpSocket → Call UdpSocket
store_udp_socket socket = change (λ d. record d { udp_socket = some socket }) >>= λ _. give socket

-- The UDP socket of the session is made when it is needed first.
abbrev pub ensure_udp_socket : Events → Option UdpSocket → Call UdpSocket
ensure_udp_socket events (some u) = give u
ensure_udp_socket events none =
    look >>= λ d. construct new_udp_socket (events.bound d.udp_vrcp_port) >>= store_udp_socket

abbrev pub enter_session :
    VrcpClientParams × VrcpConnectResp → Call (Option (VrcpClientParams × VrcpConnectResp))
enter_session response =
    change (λ d. record d { state = session_connected }) >>= λ _. give (some response)

abbrev pub finish_accept :
    Events
    → ℕ
    → List ℕ
    → VrcpClientParams × VrcpConnectResp
    → UdpSocket
    → Call (Option (VrcpClientParams × VrcpConnectResp))
finish_accept events video_port codec response udp =
    reliable_send events (conn_accept_packet udp.local_addr.port video_port codec) >>= λ _.
    enter_session response

-- All checks passed.
abbrev pub accept_request :
    Events
    → VrcpServerParams
    → VrcpClientParams
    → List ℕ
    → RequestFields
    → List ℕ
    → Call (Option (VrcpClientParams × VrcpConnectResp))
accept_request events params before memory f codec =
    let r = conn_req_at memory in
    change (λ d. record d {
      peer_udp_addr = record { addr = d.tcp_socket.peer_addr.addr; port = ntohs r.udp_vrcp_port };
      udp_broadcast_socket = none;
    })
    >>= λ _. look >>= λ d. ensure_udp_socket events d.udp_socket >>= λ udp.
        finish_accept events params.video_port codec
          (client_params_of r f before, server_response r codec) udp

abbrev pub reject_packet : VrcpRejectReason → ℕ → List ℕ
reject_packet because err_data =
    vrcp_connection_reject_bytes (record default_vrcp_connection_reject {
      reason = reject_code because;
      reject_data = err_data;
    })

abbrev pub refuse_request : Events → VrcpRejectReason → ℕ → Call Unit
refuse_request events because err_data =
    reliable_send events (reject_packet because err_data) >>= λ _. reset_server events

-- The rest of the loop's body, with what comes after a refusal.
abbrev pub answer_request :
    Events
    → VrcpServerParams
    → VrcpClientParams
    → List ℕ
    → Call (Option (VrcpClientParams × VrcpConnectResp))
    → Judgement
    → Call (Option (VrcpClientParams × VrcpConnectResp))
answer_request events params before memory next (accept f codec) =
    accept_request events params before memory f codec
answer_request events params before memory next (reject because err_data) =
    refuse_request events because err_data >>= λ _. next
answer_request events params before memory next out_of_memory = crash

-- The body of the loop, for what `reliable_receive` gives; `next` is the next round.
abbrev pub on_request :
    Events
    → VrcpServerParams
    → VrcpClientParams
    → Call (Option (VrcpClientParams × VrcpConnectResp))
    → Option (List ℕ)
    → Call (Option (VrcpClientParams × VrcpConnectResp))
on_request events params before next none = give none
on_request events params before next (some packet) =
    let memory = packet ++ events.behind in
    if get_or packet 0 0 == to_u8 conn_req
    then answer_request events params before memory next
        (judge_request params memory (length packet))
    else next

-- The loop, a round for each entry. `none` is the result false; `before` is what `client_params` holds
-- when it is called.
unfoldable pub listen_for_conn_req :
    Events
    → VrcpServerParams
    → VrcpClientParams
    → List Receiving
    → Call (Option (VrcpClientParams × VrcpConnectResp))
listen_for_conn_req events params before [] s = (s, unfinished)
listen_for_conn_req events params before (r ∷ rs) s =
    (receive_packet r
        >>= on_request events params before (listen_for_conn_req events params before rs))
      s

abbrev pub is_empty_list : List (List ℕ) → Bool
is_empty_list [] = true
is_empty_list (x ∷ xs) = false

abbrev pub negotiate :
    Events
    → VrcpServerParams
    → VrcpClientParams
    → Call (Option (VrcpClientParams × VrcpConnectResp))
negotiate events params before = look >>= λ d.
    if is_negotiating d.state
    then listen_for_conn_req events params before events.receiving
    else throw

-- `client_params` and `resp` are given.
unfoldable pub listen :
    List ℕ
    → Events
    → VrcpServerParams
    → VrcpClientParams
    → Call (Option (VrcpClientParams × VrcpConnectResp))
listen bcast_addrs events params before = look >>= λ d.
    if not (is_awaiting d.state || is_negotiating d.state)
    then throw
    else if is_empty_list params.supported_video_codecs
    then throw
    else if is_awaiting d.state
    then (listen_for_tcp_connection bcast_addrs events >>= λ connected.
        if connected then negotiate events params before else give none)
    else negotiate events params before
