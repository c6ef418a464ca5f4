-- ===== src/Session/Client.antt =====
-- common/src/vrcp_socket.cpp: the client's side of a session, from the connection to the answer.
use wireless_vr_bridge.Base.{
  ℕ, Bool, true, false, not, ◌&&◌, ◌||◌, List, [], ◌∷◌, Option, none, some, if◌then◌else◌, leb,
  ◌==◌, get_or, length,
}
use wireless_vr_bridge.Network.{ntohs}
use wireless_vr_bridge.Network.Wire.{load16}
use wireless_vr_bridge.Vrcp.{to_u8, conn_accept, conn_reject}
use wireless_vr_bridge.Sockets.{SocketAddr, tcp_connect, unfinished, Receiving}
use wireless_vr_bridge.Handshake.{VrcpClientParams, VrcpConnectResp}
use wireless_vr_bridge.Handshake.Request.{conn_req_packet}
use wireless_vr_bridge.Handshake.Judge.{read_accept}
use wireless_vr_bridge.Session.{
  negotiating, session_connected, is_awaiting, is_negotiating, Events, Call, ◌>>=◌, give, throw,
  look, change, on_tcp, reliable_send, receive_packet,
}
use wireless_vr_bridge.Session.Server.{reset_client, ensure_udp_socket, is_empty_list}

-- The end of a CONN_ACCEPT: the broadcast socket and the candidates are not needed any more.
abbrev pub settle : Option VrcpConnectResp → Call (Option VrcpConnectResp)
settle none = throw
settle (some resp) =
    change (λ d. record d {
      state = session_connected;
      udp_broadcast_socket = none;
      server_candidates = [];
    })
    >>= λ _. give (some resp)

abbrev pub take_answer : VrcpClientParams → List ℕ → Call (Option VrcpConnectResp)
take_answer params packet =
    change (λ d. record d {
      peer_udp_addr = record { addr = d.tcp_socket.peer_addr.addr; port = ntohs (load16 packet 4) };
    })
    >>= λ _. settle (read_accept params packet)

-- The body of the loop, for what `reliable_receive` gives; `next` is the next round.
abbrev pub on_response :
    Events
    → VrcpClientParams
    → Call (Option VrcpConnectResp)
    → Option (List ℕ)
    → Call (Option VrcpConnectResp)
on_response events params next none = give none
on_response events params next (some packet) =
    if (get_or packet 0 0 == to_u8 conn_accept) && leb 10 (length packet)
    then take_answer params packet
    else if get_or packet 0 0 == to_u8 conn_reject
    then (reset_client events >>= λ _. throw)
    else next

-- The loop, a round for each entry. `none` is the result false.
unfoldable pub listen_for_resp_loop :
    Events → VrcpClientParams → List Receiving → Call (Option VrcpConnectResp)
listen_for_resp_loop events params [] s = (s, unfinished)
listen_for_resp_loop events params (r ∷ rs) s =
    (receive_packet r >>= on_response events params (listen_for_resp_loop events params rs)) s

unfoldable pub listen_for_conn_resp : Events → VrcpClientParams → Call (Option VrcpConnectResp)
listen_for_conn_resp events params = look >>= λ d.
    if is_negotiating d.state then listen_for_resp_loop events params events.receiving else throw

-- The connection is there: the request is sent. `fresh` is what the memory of the packet holds.
abbrev pub send_request : Events → VrcpClientParams → List ℕ → Call Unit
send_request events params fresh = change (λ d. record d { state = negotiating }) >>= λ _.
    look >>= λ d. ensure_udp_socket events d.udp_socket >>= λ udp.
    reliable_send events (conn_req_packet udp.local_addr.port params fresh)

abbrev pub is_empty_text : List ℕ → Bool
is_empty_text [] = true
is_empty_text (b ∷ bs) = false

abbrev pub on_connection : Events → VrcpClientParams → List ℕ → Bool → Call (Option VrcpConnectResp)
on_connection events params fresh connected =
    if connected
    then (send_request events params fresh >>= λ _. listen_for_conn_resp events params)
    else give none

unfoldable pub connect :
    SocketAddr → Events → VrcpClientParams → List ℕ → Call (Option VrcpConnectResp)
connect addr events params fresh = look >>= λ d.
    if is_empty_text params.specs.manufacturer_name
      || is_empty_text params.specs.system_name
      || is_empty_list params.supported_video_codecs
    then throw
    else if not (is_awaiting d.state || is_negotiating d.state)
    then throw
    else if is_awaiting d.state
    then (on_tcp (tcp_connect events.connecting addr d.tcp_socket)
        >>= on_connection events params fresh)
    else listen_for_conn_resp events params
