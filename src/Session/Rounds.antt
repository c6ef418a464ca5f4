-- ===== src/Session/Rounds.antt =====
-- common/src/vrcp_socket.cpp: the rounds of the loops in `listen_for_conn_req` and
-- `listen_for_conn_resp`, each of which begins with a call of `reliable_receive`.
use mathlib.Core.Path.{subst}
use wireless_vr_bridge.Base.{ℕ, ◌≡◌, refl, ap, Bool, true, false, List, ◌∷◌, some, if◌then◌else◌}
use wireless_vr_bridge.Sockets.{Tried, returned, threw, crashed, unfinished, Receiving}
use wireless_vr_bridge.Session.{Session, Call, then_call, ◌>>=◌, receive_packet}

-- A loop, begun in a state, comes to a packet in one of its rounds, and to the state right after it was
-- received. `GoesOn` says how the loop gets from a packet that does not end it to the next round.
pub data Reaches (GoesOn : List ℕ → Session → Session → Type 0)
    : List Receiving → Session → List ℕ → Session → Type 0 where
  here :
      {r : Receiving} {rs : List Receiving} {s t : Session} {packet : List ℕ}
      → receive_packet r s ≡ (t, returned (some packet))
      → Reaches GoesOn (r ∷ rs) s packet t
  later :
      {r : Receiving} {rs : List Receiving} {s s' s'' t : Session} {packet : List ℕ}
      (other : List ℕ)
      → receive_packet r s ≡ (s', returned (some other))
      → GoesOn other s' s''
      → Reaches GoesOn rs s'' packet t
      → Reaches GoesOn (r ∷ rs) s packet t

-- A result with its two halves put together.
pub outcome_of :
    {A : Type 0} (r : Session × Tried A) (a : A) → r.1 ≡ returned a → r ≡ (r.0, returned a)
outcome_of r a e = ap (λ o. (r.0, o)) e

-- A property of the result and of the state, if the call returns.
abbrev pub OnReturn : {A : Type 0} → (A → Session → Type 0) → Session × Tried A → Type 0
OnReturn Q (s, returned a) = Q a s
OnReturn Q (s, threw) = Unit
OnReturn Q (s, crashed) = Unit
OnReturn Q (s, unfinished) = Unit

-- What holds if a call returns holds of one that does.
pub OnReturn-at :
    {A : Type 0} (Q : A → Session → Type 0) (r : Session × Tried A) (a : A)
    → OnReturn Q r
    → r.1 ≡ returned a
    → Q a r.0
OnReturn-at Q r a h e = subst (OnReturn Q) (outcome_of r a e) h

pub OnReturn-map :
    {A : Type 0} (Q Q' : A → Session → Type 0) (r : Session × Tried A)
    → ((a : A) (s : Session) → Q a s → Q' a s)
    → OnReturn Q r
    → OnReturn Q' r
OnReturn-map Q Q' (s, returned a) f h = f a s h
OnReturn-map Q Q' (s, threw) f h = tt
OnReturn-map Q Q' (s, crashed) f h = tt
OnReturn-map Q Q' (s, unfinished) f h = tt

abbrev pub Ensures : {A : Type 0} → (A → Session → Type 0) → Call A → Type 0
Ensures Q c = (s : Session) → OnReturn Q (c s)

module _ {B : Type 0} (Q : B → Session → Type 0) where
  then_call-Ensures :
      {A : Type 0} (f : A → Call B) (r : Session × Tried A)
      → ((a : A) → Ensures Q (f a))
      → OnReturn Q (then_call f r)
  then_call-Ensures f (s, returned a) h = h a s
  then_call-Ensures f (s, threw) h = tt
  then_call-Ensures f (s, crashed) h = tt
  then_call-Ensures f (s, unfinished) h = tt

  pub Ensures-bind :
      {A : Type 0} (c : Call A) (f : A → Call B) → ((a : A) → Ensures Q (f a)) → Ensures Q (c >>= f)
  Ensures-bind c f h s = then_call-Ensures f (c s) h

  -- The second half may count on what the first returned.
  pub then_call-returned :
      {A : Type 0} (f : A → Call B) (r : Session × Tried A)
      → ((a : A) → r.1 ≡ returned a → OnReturn Q (f a r.0))
      → OnReturn Q (then_call f r)
  then_call-returned f (s, returned a) h = h a refl
  then_call-returned f (s, threw) h = tt
  then_call-returned f (s, crashed) h = tt
  then_call-returned f (s, unfinished) h = tt

  pub Ensures-if :
      (b : Bool) (c c' : Call B) → Ensures Q c → Ensures Q c' → Ensures Q (if b then c else c')
  Ensures-if true c c' h k = h
  Ensures-if false c c' h k = k
