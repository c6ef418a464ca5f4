-- ===== src/Session/Heard.antt =====
-- The client's list of candidates, and that a server which advertises is heard.
use wireless_vr_bridge.Base.{
  ℕ, ◌+◌, ◌*◌, ◌/◌, ◌%◌, ◌^◌, ◌≤◌, ◌<◌, ◌≡◌, ◌≢◌, refl, arith, true, false, not, ◌||◌, List, [],
  ◌∷◌, Option, none, some, ltb, ◌==◌, ==_iff, All, u32, sub32, if_both,
}
use mathlib.Core.Path.{subst}
use wireless_vr_bridge.Network.{htons, htonl}
use wireless_vr_bridge.Network.ByteOrder.{ntohs-htons, ntohl-htonl, htons-lt, htonl-lt}
use wireless_vr_bridge.Network.Wire.{load16, load32}
use wireless_vr_bridge.Sockets.{is_not_started, is_connecting}
use wireless_vr_bridge.Session.{Call, VrcpServerCandidate, VrcpSocketData, Session, throw}
use wireless_vr_bridge.Session.Server.{advertisement_of}
use wireless_vr_bridge.Session.Rounds.{OnReturn}
use wireless_vr_bridge.Session.Candidates.{
  remove_outdated, is_outdated, heard_candidate, candidate_of, is_advertisement, update_candidates,
  take_candidate, hear_all, hear, Datagrams, heard_by, available_servers,
}

-- A candidate whose advertisement is not too old, and that can be connected to.
abbrev pub IsCurrent : ℕ → VrcpServerCandidate → Type 0
IsCurrent now c = (sub32 now c.timestamp ≤ c.interval + 10000) × (0 < c.addr.port)

abbrev pub IsNew : ℕ → VrcpServerCandidate → Type 0
IsNew addr c = c.addr.addr ≢ addr

-- No two candidates have one address.
abbrev pub AreDistinct : List VrcpServerCandidate → Type 0
AreDistinct [] = Unit
AreDistinct (c ∷ cs) = All (IsNew c.addr.addr) cs × AreDistinct cs

abbrev pub HasPorts : List VrcpServerCandidate → Type 0
HasPorts cs = All (λ c. 0 < c.addr.port) cs

remove_outdated-IsCurrent :
    (now : ℕ) (cs : List VrcpServerCandidate)
    → HasPorts cs
    → All (IsCurrent now) (remove_outdated now cs)
remove_outdated-IsCurrent now [] h = tt
remove_outdated-IsCurrent now (c ∷ cs) h =
    if_both (All (IsCurrent now)) (is_outdated now c) (remove_outdated now cs)
      (c ∷ remove_outdated now cs) (λ old. remove_outdated-IsCurrent now cs h.1)
      (λ young. ((ground (arith, young), h.0), remove_outdated-IsCurrent now cs h.1))

remove_outdated-All :
    (P : VrcpServerCandidate → Type 0) (now : ℕ) (cs : List VrcpServerCandidate)
    → All P cs
    → All P (remove_outdated now cs)
remove_outdated-All P now [] h = tt
remove_outdated-All P now (c ∷ cs) h =
    if_both (All P) (is_outdated now c) (remove_outdated now cs) (c ∷ remove_outdated now cs)
      (λ old. remove_outdated-All P now cs h.1) (λ young. (h.0, remove_outdated-All P now cs h.1))

remove_outdated-distinct :
    (now : ℕ) (cs : List VrcpServerCandidate)
    → AreDistinct cs
    → AreDistinct (remove_outdated now cs)
remove_outdated-distinct now [] h = tt
remove_outdated-distinct now (c ∷ cs) h =
    if_both AreDistinct (is_outdated now c) (remove_outdated now cs) (c ∷ remove_outdated now cs)
      (λ old. remove_outdated-distinct now cs h.1)
      (λ young.
        (remove_outdated-All (IsNew c.addr.addr) now cs h.0, remove_outdated-distinct now cs h.1))

update_candidates-All :
    (P : VrcpServerCandidate → Type 0) (new : VrcpServerCandidate) (cs : List VrcpServerCandidate)
    → P new
    → All P cs
    → All P (update_candidates new cs)
update_candidates-All P new [] p h = (p, tt)
update_candidates-All P new (c ∷ cs) p h =
    if_both (All P) (c.addr.addr == new.addr.addr) _ (c ∷ update_candidates new cs)
      (λ same.
        if_both (All P) (ltb c.timestamp new.timestamp) (new ∷ cs) (c ∷ cs) (λ newer. (p, h.1))
          (λ older. h))
      (λ other. (h.0, update_candidates-All P new cs p h.1))

update_candidates-distinct :
    (new : VrcpServerCandidate) (cs : List VrcpServerCandidate)
    → AreDistinct cs
    → AreDistinct (update_candidates new cs)
update_candidates-distinct new [] h = (tt, tt)
update_candidates-distinct new (c ∷ cs) h =
    if_both AreDistinct (c.addr.addr == new.addr.addr) _ (c ∷ update_candidates new cs)
      (λ same.
        let e : c.addr.addr ≡ new.addr.addr = (==_iff c.addr.addr new.addr.addr).0 same in
        if_both AreDistinct (ltb c.timestamp new.timestamp) (new ∷ cs) (c ∷ cs)
          (λ newer. (subst (λ a. All (IsNew a) cs) e h.0, h.1)) (λ older. h))
      (λ other. (
        update_candidates-All (IsNew c.addr.addr) new cs (λ e. ground (arith, e, other)) h.0,
        update_candidates-distinct new cs h.1,
      ))

-- What holds of the list for one call.
abbrev pub AreCandidates : ℕ → List VrcpServerCandidate → Type 0
AreCandidates now cs = All (IsCurrent now) cs × AreDistinct cs

IsHeard : ℕ → Option VrcpServerCandidate → Type 0
IsHeard now none = Unit
IsHeard now (some c) = IsCurrent now c

checked_advertisement :
    (now : ℕ) (packet : List ℕ) (c : VrcpServerCandidate)
    → is_advertisement now packet c ≡ true
    → IsCurrent now c
checked_advertisement now packet c h = (ground (arith, h), ground (arith, h))

heard_candidate-IsHeard :
    (now sender : ℕ) (packet : List ℕ) → IsHeard now (heard_candidate now sender packet)
unfolding heard_candidate IsHeard
heard_candidate-IsHeard now sender packet =
    let c = candidate_of sender packet in
    if_both (IsHeard now) (is_advertisement now packet c) (some c) none
      (checked_advertisement now packet c) (λ h. tt)

take_candidate-AreCandidates :
    (now : ℕ) (heard : Option VrcpServerCandidate) (cs : List VrcpServerCandidate)
    → IsHeard now heard
    → AreCandidates now cs
    → AreCandidates now (take_candidate heard cs)
unfolding IsHeard
take_candidate-AreCandidates now none cs p h = h
take_candidate-AreCandidates now (some c) cs p h =
    (update_candidates-All (IsCurrent now) c cs p h.0, update_candidates-distinct c cs h.1)

hear_all-AreCandidates :
    (now : ℕ) (datagrams : List (ℕ × List ℕ)) (cs : List VrcpServerCandidate)
    → AreCandidates now cs
    → AreCandidates now (hear_all now datagrams cs)
hear_all-AreCandidates now [] cs h = h
hear_all-AreCandidates now ((sender, packet) ∷ datagrams) cs h =
    hear_all-AreCandidates now datagrams (take_candidate (heard_candidate now sender packet) cs) (
      take_candidate-AreCandidates now (heard_candidate now sender packet) cs
        (heard_candidate-IsHeard now sender packet) h)

hear-AreCandidates :
    (now : ℕ) (heard : Option Datagrams) (s : Session)
    → AreCandidates now s.socket.server_candidates
    → OnReturn
        (λ cs s'. AreCandidates now cs × (cs ≡ s'.socket.server_candidates))
        (hear now heard s)
hear-AreCandidates now none s h = tt
hear-AreCandidates now (some heard) s h =
    if_both
      (λ (c : Call (List VrcpServerCandidate)).
        OnReturn (λ cs s'. AreCandidates now cs × (cs ≡ s'.socket.server_candidates))
          (c (record s {
            socket = record s.socket {
              server_candidates = hear_all now heard.datagrams s.socket.server_candidates;
            };
          })))
      heard.fails throw _ (λ failed. tt)
      (λ ended. (hear_all-AreCandidates now heard.datagrams s.socket.server_candidates h, refl))

-- If no two candidates had one address before, and each had a port, then after `available_servers`
-- returns, whatever it has received, none of the candidates that it returns, which are those of the
-- socket, is too old at that time or without a port, and no two have one address.
pub available_servers-AreCandidates :
    (unix_time : ℕ) (heard : Datagrams) (s : Session)
    → HasPorts s.socket.server_candidates
    → AreDistinct s.socket.server_candidates
    → OnReturn
        (λ cs s'. AreCandidates (u32 unix_time) cs × (cs ≡ s'.socket.server_candidates))
        (available_servers unix_time heard s)
unfolding available_servers
available_servers-AreCandidates unix_time heard s p h =
    if_both
      (λ c.
        OnReturn (λ cs s'. AreCandidates (u32 unix_time) cs × (cs ≡ s'.socket.server_candidates))
          (c s))
      (not (is_not_started s.socket.tcp_socket.state || is_connecting s.socket.tcp_socket.state))
      throw _ (λ busy. tt)
      (λ free.
        hear-AreCandidates (u32 unix_time) (heard_by s.socket.udp_broadcast_socket heard)
          (record s {
            socket = record s.socket {
              server_candidates = remove_outdated (u32 unix_time) s.socket.server_candidates;
            };
          })
          (
            remove_outdated-IsCurrent (u32 unix_time) s.socket.server_candidates p,
            remove_outdated-distinct (u32 unix_time) s.socket.server_candidates h,
          ))

-- The advertisement that a server sends at one time is heard at another that is less than its interval
-- and 10000 seconds later, at the server's TCP port, where the port is not 0 and the numbers have their
-- widths.
pub heard_candidate-advertisement :
    (d : VrcpSocketData) (sent_at now sender : ℕ)
    → 0 < d.tcp_socket.local_addr.port
    → d.tcp_socket.local_addr.port < 2 ^ 16
    → sent_at < 2 ^ 32
    → sub32 now sent_at < d.advertisement_interval_sec + 10000
    → heard_candidate now sender (advertisement_of sent_at d)
      ≡ some (record {
        addr = record { addr = sender; port = d.tcp_socket.local_addr.port };
        timestamp = sent_at;
        interval = d.advertisement_interval_sec;
      })
unfolding heard_candidate load16 load32
heard_candidate-advertisement d sent_at now sender some_port w t young =
    let port = d.tcp_socket.local_addr.port in
    let joined_port : htons port % 256 + htons port / 2 ^ 8 % 256 * 2 ^ 8 ≡ htons port =
      omega (arith, htons-lt port w) in
    let joined_time : htonl sent_at % 256
          + htonl sent_at / 2 ^ 8 % 256 * 2 ^ 8
          + htonl sent_at / 2 ^ 16 % 256 * 2 ^ 16
          + htonl sent_at / 2 ^ 24 % 256 * 2 ^ 24
        ≡ htonl sent_at =
      omega (arith, htonl-lt sent_at t) in
    let fresh : ltb (sub32 now sent_at) (d.advertisement_interval_sec + 10000) ≡ true =
      ground (arith, young) in
    let has_port : (port == 0) ≡ false = ground (arith, some_port) in
    rw (joined_port, joined_time, ntohs-htons port w, ntohl-htonl sent_at t, fresh, has_port) refl
