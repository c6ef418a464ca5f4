-- ===== src/Session/Candidates.antt =====
-- common/src/vrcp_socket.cpp: `available_servers`, the servers that a client has heard of.
use wireless_vr_bridge.Base.{
  ℕ, ◌+◌, Bool, false, not, ◌||◌, ◌&&◌, List, [], ◌∷◌, Option, none, some, if◌then◌else◌, ltb, ◌==◌,
  length, get_or, u32, sub32,
}
use wireless_vr_bridge.Network.{ntohs, ntohl}
use wireless_vr_bridge.Network.Wire.{load16, load32}
use wireless_vr_bridge.Vrcp.{to_u8, server_advertisement, vrcp_magic, vrcp_version}
use wireless_vr_bridge.Sockets.{UdpSocket, is_not_started, is_connecting}
use wireless_vr_bridge.Session.{VrcpServerCandidate, Call, ◌>>=◌, give, throw, crash, look, change}

abbrev pub advertisement_timeout_margin_sec : ℕ
advertisement_timeout_margin_sec = 10000

-- The age of an advertisement in seconds wraps at 32 bits.
abbrev pub is_outdated : ℕ → VrcpServerCandidate → Bool
is_outdated now c = ltb (c.interval + advertisement_timeout_margin_sec) (sub32 now c.timestamp)

-- `remove_if` and `erase`.
abbrev pub remove_outdated : ℕ → List VrcpServerCandidate → List VrcpServerCandidate
remove_outdated now [] = []
remove_outdated now (c ∷ cs) =
    let rest = remove_outdated now cs in if is_outdated now c then rest else c ∷ rest

abbrev pub candidate_of : ℕ → List ℕ → VrcpServerCandidate
candidate_of sender packet = record {
  addr = record { addr = sender; port = ntohs (load16 packet 4) };
  timestamp = ntohl (load32 packet 8);
  interval = get_or packet 6 0;
}

-- The checks of a datagram.
abbrev pub is_advertisement : ℕ → List ℕ → VrcpServerCandidate → Bool
is_advertisement now packet c =
    (length packet == 12)
    && ((get_or packet 0 0 == to_u8 server_advertisement)
        && ((get_or packet 2 0 == vrcp_magic)
            && ((get_or packet 3 0 == vrcp_version)
                && (ltb (sub32 now c.timestamp) (c.interval + advertisement_timeout_margin_sec)
                    && not (c.addr.port == 0)))))

unfoldable pub heard_candidate : ℕ → ℕ → List ℕ → Option VrcpServerCandidate
heard_candidate now sender packet =
    if is_advertisement now packet (candidate_of sender packet)
    then some (candidate_of sender packet)
    else none

-- The first candidate of that address is updated, if the advertisement is newer; without one it is added.
abbrev pub update_candidates :
    VrcpServerCandidate → List VrcpServerCandidate → List VrcpServerCandidate
update_candidates new [] = new ∷ []
update_candidates new (c ∷ cs) =
    let rest = c ∷ update_candidates new cs in
    if c.addr.addr == new.addr.addr
    then (if ltb c.timestamp new.timestamp then new ∷ cs else c ∷ cs)
    else rest

abbrev pub take_candidate :
    Option VrcpServerCandidate → List VrcpServerCandidate → List VrcpServerCandidate
take_candidate none cs = cs
take_candidate (some new) cs = update_candidates new cs

-- One entry for each datagram, its sender's address and its bytes, until none is left.
abbrev pub hear_all : ℕ → List (ℕ × List ℕ) → List VrcpServerCandidate → List VrcpServerCandidate
hear_all now [] cs = cs
hear_all now ((sender, packet) ∷ datagrams) cs =
    hear_all now datagrams (take_candidate (heard_candidate now sender packet) cs)

-- What `receive_from` gives until it stops: the datagrams, and whether it stops by an error of the
-- system and not because none is left.
pub record Datagrams : Type 0 where
  pub datagrams : List (ℕ × List ℕ)
  pub fails : Bool

-- A closed socket receives nothing; one that is not valid is a null pointer.
abbrev pub heard_by : Option UdpSocket → Datagrams → Option Datagrams
heard_by none heard = none
heard_by (some u) heard =
    some (if u.is_open then heard else record { datagrams = []; fails = false })

abbrev pub hear : ℕ → Option Datagrams → Call (List VrcpServerCandidate)
hear now none = crash
hear now (some heard) =
    change (λ d. record d { server_candidates = hear_all now heard.datagrams d.server_candidates })
    >>= λ _. if heard.fails then throw else (look >>= λ d. give d.server_candidates)

unfoldable pub available_servers : ℕ → Datagrams → Call (List VrcpServerCandidate)
available_servers unix_time heard = look >>= λ d.
    let now = u32 unix_time in
    if not (is_not_started d.tcp_socket.state || is_connecting d.tcp_socket.state)
    then throw
    else change (λ d'. record d' { server_candidates = remove_outdated now d'.server_candidates })
      >>= λ _. hear now (heard_by d.udp_broadcast_socket heard)
