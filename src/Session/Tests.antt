-- ===== src/Session/Tests.antt =====
-- Sessions of a server and of a client, and the theorems at them.
use wireless_vr_bridge.Base.{ℕ, ◌≡◌, refl, ap, arith, true, false, List, [], ◌∷◌, none, some}
use wireless_vr_bridge.Network.{htons, htonl, htonll, htonf, ntohs, ntohl, ntohll}
use wireless_vr_bridge.Network.Wire.{load16, load32, load64}
use wireless_vr_bridge.Vrcp.{invalid_eye_size}
use wireless_vr_bridge.VrcpSocket.{empty_reception, next_tcp_packet, move_to_front, receive_at_tail}
use wireless_vr_bridge.Sockets.{
  returned, SocketAddr, new_tcp_socket, new_udp_socket, connected, client, established, took, bytes,
  nothing_new, threw, crashed, tcp_send, send_loop, tcp_receive, tcp_listen, tcp_connect,
}
use wireless_vr_bridge.Handshake.Fields.{read_fields, read_field, find_chosen_codec}
use wireless_vr_bridge.Handshake.Request.{conn_req_packet, conn_accept_packet, conn_req_at}
use wireless_vr_bridge.Handshake.Judge.{judge_request, check_request, choose_codec, read_accept}
use wireless_vr_bridge.Handshake.Tests.{headset, server, av1}
use wireless_vr_bridge.Handshake.{VrcpConnectResp}
use wireless_vr_bridge.Session.{
  VrcpSocketData, awaiting_connection, negotiating, session_connected, Session, Events,
  receive_packet,
}
use wireless_vr_bridge.Session.Server.{
  listen, listen_for_conn_req, listen_for_tcp_connection, reset_server, reset_client,
  answer_request,
}
use wireless_vr_bridge.Handshake.Judge.{reject}
use wireless_vr_bridge.Session.Client.{
  connect, on_response, listen_for_resp_loop, listen_for_conn_resp,
}
use wireless_vr_bridge.Session.Forward.{no_call, after_call, was_reset, IsPast, ServerRun-IsPast}
use wireless_vr_bridge.Session.Refused.{CanRefuse, EndsStuck, listen-IsStuck, refused-IsStuck}
use wireless_vr_bridge.Session.Server.{advertisement_of}
use wireless_vr_bridge.Session.Create.{create_server}
use wireless_vr_bridge.Session.Candidates.{Datagrams, available_servers, heard_candidate}
use wireless_vr_bridge.Session.Heard.{
  AreCandidates, available_servers-AreCandidates, heard_candidate-advertisement,
}
use wireless_vr_bridge.Session.Rounds.{OnReturn}
use wireless_vr_bridge.Session.Opened.{WhenTrue, listen-WasAccepted}
use wireless_vr_bridge.Session.Joined.{WhenJoined, connect-HasJoined}
use wireless_vr_bridge.Session.ResetClient.{
  CanRestart, EndsRestarted, rejected-IsRestarted, joined_reset_client-crashes,
}

abbrev here : ℕ → SocketAddr
here port = record { addr = 0x7F000001; port = port }

abbrev waiting : VrcpSocketData
waiting = record {
  state = awaiting_connection;
  tcp_socket = new_tcp_socket (here 6000);
  udp_socket = none;
  udp_broadcast_socket = some (new_udp_socket (here 7671));
  is_server = true;
  advertisement_interval_sec = 3;
  local_advert_port = 0;
  udp_advert_port = 7672;
  udp_vrcp_port = 7001;
  peer_udp_addr = here 0;
  last_advertisement_time = 0;
  server_candidates = [];
  tcp_reception = empty_reception;
  udp_reception = empty_reception;
}

abbrev started : Session
started = record { socket = waiting; sent = [] }

-- The client's request comes with the connection.
abbrev request_comes : Events
request_comes = record {
  listens = true;
  accepting = client (here 8000) (here 6000);
  connecting = established;
  now = 1700000000;
  bound = λ port. some (here port);
  sending = took 1000 ∷ [];
  receiving = bytes (conn_req_packet 7000 headset []) ∷ nothing_new ∷ [];
  behind = [];
}

-- The client has connected.
abbrev negotiation : Session
negotiation = record started {
  socket = record waiting {
    state = negotiating;
    tcp_socket = record (new_tcp_socket (here 6000)) { state = connected };
  };
}

abbrev stuck : Session
stuck = record started { socket = record waiting { state = negotiating } }

ServerRun-IsPast_example : IsPast 1 (reset_server request_comes negotiation).0.socket.state
ServerRun-IsPast_example =
    ServerRun-IsPast negotiation (reset_server request_comes negotiation).0
      (after_call (was_reset request_comes) no_call)

listen-IsStuck_example : listen [] request_comes server headset stuck ≡ (stuck, threw)
listen-IsStuck_example =
    listen-IsStuck [] request_comes server headset (bytes (conn_req_packet 7000 headset []))
      (nothing_new ∷ []) stuck
      (record { state = refl; fresh_socket = refl; empty_head = refl; empty_tail = refl }) refl

negotiation-CanRefuse :
    CanRefuse (record request_comes { sending = took 4 ∷ [] }) invalid_eye_size 0 negotiation.socket
unfolding tcp_send send_loop
negotiation-CanRefuse = record {
  state = refl;
  taken = 4;
  takes = refl;
  broadcast = new_udp_socket (here 7671);
  has_broadcast = refl;
  tcp_addr = here 6000;
  binds_tcp = refl;
  udp_addr = here 0;
  binds_udp = refl;
}

refused-IsStuck_example : EndsStuck threw (
    answer_request
      (record request_comes { sending = took 4 ∷ [] })
      server
      headset
      []
      (listen_for_conn_req
        (record request_comes { sending = took 4 ∷ [] })
        server
        headset
        (nothing_new ∷ []))
      (reject invalid_eye_size 0)
      negotiation)
refused-IsStuck_example =
    refused-IsStuck (record request_comes { sending = took 4 ∷ [] }) server headset []
      invalid_eye_size 0 nothing_new [] negotiation negotiation-CanRefuse

listen-WasAccepted_example :
    OnReturn
      (WhenTrue request_comes server headset [] started)
      (listen [] request_comes server headset started)
listen-WasAccepted_example = listen-WasAccepted request_comes server headset [] started

negotiation-CanRestart : CanRestart request_comes negotiation.socket
negotiation-CanRestart = record {
  state = refl;
  broadcast = new_udp_socket (here 7671);
  has_broadcast = refl;
  open_broadcast = refl;
  tcp_addr = here 6000;
  binds_tcp = refl;
  udp_addr = here 7672;
  binds_udp = refl;
  at_port = refl;
}

rejected-IsRestarted_example : EndsRestarted threw 7672 (
    on_response request_comes headset
      (listen_for_resp_loop request_comes headset [])
      (some (3 ∷ 1 ∷ 5 ∷ 0 ∷ []))
      negotiation)
rejected-IsRestarted_example =
    rejected-IsRestarted request_comes headset (listen_for_resp_loop request_comes headset [])
      (3 ∷ 1 ∷ 5 ∷ 0 ∷ []) negotiation refl negotiation-CanRestart

abbrev accepted_packet : List ℕ
accepted_packet = 2 ∷ 4 ∷ 0 ∷ 0 ∷ 27 ∷ 88 ∷ 19 ∷ 136 ∷ 12 ∷ 3 ∷ 97 ∷ 118 ∷ 49 ∷ 0 ∷ 0 ∷ 0 ∷ []

conn_accept_packet_bytes : conn_accept_packet 7000 5000 av1 ≡ accepted_packet
unfolding conn_accept_packet htons
conn_accept_packet_bytes = refl

-- The server's answer comes once the request was sent.
abbrev answer_comes : Events
answer_comes = record request_comes { receiving = bytes accepted_packet ∷ [] }

abbrev answer : VrcpConnectResp
answer = record { peer_video_port = 5000; chosen_video_codec = av1; ntp_timestamp = 3800000000 }

-- The whole negotiation of the client, from the connection to the session.
client_is_connected :
    (connect (here 6000) answer_comes headset [] started).1 ≡ returned (some answer)
unfolding connect listen_for_conn_resp listen_for_resp_loop tcp_connect conn_req_packet read_accept
    find_chosen_codec load16 ntohs htons htonl htonf htonll receive_packet next_tcp_packet
    move_to_front tcp_receive receive_at_tail tcp_send send_loop
client_is_connected = refl

client_keeps_port :
    (connect (here 6000) answer_comes headset [] started).0.socket.tcp_socket.local_addr.port ≡ 6000
unfolding connect listen_for_conn_resp listen_for_resp_loop tcp_connect conn_req_packet read_accept
    find_chosen_codec load16 ntohs htons htonl htonf htonll receive_packet next_tcp_packet
    move_to_front tcp_receive receive_at_tail tcp_send send_loop
client_keeps_port = refl

connect-HasJoined_example :
    OnReturn
      (WhenJoined answer_comes headset (here 6000) [] started)
      (connect (here 6000) answer_comes headset [] started)
connect-HasJoined_example = connect-HasJoined answer_comes headset (here 6000) [] started

joined_reset_client-crashes_example :
    (reset_client answer_comes (connect (here 6000) answer_comes headset [] started).0).1 ≡ crashed
joined_reset_client-crashes_example =
    joined_reset_client-crashes answer_comes headset (here 6000) [] started answer answer_comes
      (here 6000) client_is_connected (ap (λ port. some (here port)) client_keeps_port)

abbrev heard : Datagrams
heard = record {
  datagrams = (0x7F000001, advertisement_of 1699999999 waiting) ∷ (0x7F000001, []) ∷ [];
  fails = false;
}

available_servers-AreCandidates_example :
    OnReturn
      (λ cs s. AreCandidates 1700000000 cs × (cs ≡ s.socket.server_candidates))
      (available_servers 1700000000 heard started)
available_servers-AreCandidates_example =
    available_servers-AreCandidates 1700000000 heard started tt tt

heard_candidate-advertisement_example :
    heard_candidate 1700000000 0x7F000001 (advertisement_of 1699999999 waiting)
    ≡ some (record { addr = here 6000; timestamp = 1699999999; interval = 3 })
heard_candidate-advertisement_example =
    heard_candidate-advertisement waiting 1699999999 1700000000 0x7F000001 (omega arith)
      (omega arith) (omega arith) (omega arith)

-- The whole negotiation, from the connection to the session.
server_is_connected :
    (listen [] request_comes server headset started).0.socket.state ≡ session_connected
unfolding listen listen_for_tcp_connection tcp_listen listen_for_conn_req receive_packet
    next_tcp_packet move_to_front receive_at_tail tcp_receive judge_request check_request
    conn_req_at conn_req_packet read_fields read_field choose_codec htons htonl htonf htonll ntohs
    ntohl ntohll load16 load32 load64 tcp_send send_loop conn_accept_packet
server_is_connected = refl

created_server :
    create_server (λ port. some (here port)) 3 6000 7001 0 7672
    ≡ returned (record waiting {
      udp_broadcast_socket = some (new_udp_socket (here 0));
      peer_udp_addr = record { addr = 0; port = 0 };
    })
unfolding create_server
created_server = refl
