-- ===== src/Session/Relay.antt =====
-- BBgrid_Server/session/server.go: how the two ends of a relay meet in HandleRelay. The first waits at a
-- channel of its own, as a visitor waits for its tunnel, and the second is sent to it: so the map of the
-- relays with its channels is a `Pending` of its own, whose tokens are the names of the relays and whose
-- times mean nothing.
pub mod Admitted
use bbgrid.Prelude.{
  ◌≡◌, refl, true, ◌||◌, Option, none, some, List, [], ◌∷◌, Text, ℕ, pos, text_key, nat_key, ◌==◌,
  if◌then◌else◌, All,
}
use bbgrid.GoMap.{get}
use bbgrid.Types.{RelaySession}
use bbgrid.StateStore.{StateStore, get_relay_session}
use bbgrid.Session.Pending.{
  Tunnel, Visitor, PendingEntry, Pending, no_pending, then_do, unregister_pending, PendingStep,
  registers, accepts, receives, gives_up, pending_step,
}
use bbgrid.Session.Pending.Invariant.{IsPaired, Goes, unregister-IsPaired}
use bbgrid.Session.Pending.Steps.{pending_step-Goes, no_pending-IsPaired}

pub record RelayRequest : Type 0 where
  pub conn : ℕ
  pub session : Text
  pub token : Text
  pub role : Text
  pub client_id : Text

pub data Admission : Type 0 where
  -- 400, 404 and 401
  bad_request not_found unauthorized : Admission
  admitted : Admission

unfoldable pub admission_of : RelayRequest → Option RelaySession → Admission
admission_of q none = not_found
admission_of q (some r) = if r.token == q.token then admitted else unauthorized

-- The tests of HandleRelay before it accepts the WebSocket.
unfoldable pub admission : StateStore → RelayRequest → Admission
unfolding admission_of get_relay_session
admission store q =
    if q.session == [] || (q.token == [] || (q.role == [] || q.client_id == []))
    then bad_request
    else admission_of q (get_relay_session store q.session)

abbrev pub first_end : RelayRequest → PendingStep
first_end q = registers (record { conn = q.conn; token = q.session }) (pos 0)

abbrev pub second_end : RelayRequest → PendingStep
second_end q = accepts (record { conn = q.conn; token = q.session }) true

unfoldable pub join_found : Pending → RelayRequest → Option PendingEntry → Option Pending
join_found s q none = pending_step s (first_end q)
join_found s q (some e) = pending_step s (second_end q)

-- HandleRelay after the tests, up to the wait of the first end.
abbrev pub join : Pending → RelayRequest → Option Pending
join s q = join_found s q (get s.entries q.session)

unfoldable pub handle_admitted : Pending → RelayRequest → Admission → Option Pending
unfolding join_found
handle_admitted s q admitted = join s q
handle_admitted s q _ = some s

-- `HandleRelay`
unfoldable pub handle_relay : Pending → StateStore → RelayRequest → Option Pending
unfolding handle_admitted
handle_relay s store q = handle_admitted s q (admission store q)

unfoldable pub time_out_found : Pending → ℕ → Option Visitor → Option Pending
time_out_found s c none = some s
time_out_found s c (some v) = pending_step (unregister_pending s v.token) (gives_up c)

-- A first end that has waited for sixty seconds takes whatever entry its relay has out of the map.
unfoldable pub time_out : Pending → ℕ → Option Pending
unfolding time_out_found
time_out s c = time_out_found s c (get s.waiting c)

pub data RelayStep : Type 0 where
  requests : StateStore → RelayRequest → RelayStep
  meets : ℕ → RelayStep
  times_out : ℕ → RelayStep

unfoldable pub relay_step : Pending → RelayStep → Option Pending
unfolding handle_relay time_out
relay_step s (requests store q) = handle_relay s store q
relay_step s (meets c) = pending_step s (receives c)
relay_step s (times_out c) = time_out s c

unfoldable pub relay_run : Pending → List RelayStep → Option Pending
unfolding relay_step
relay_run s [] = some s
relay_run s (p ∷ ps) = then_do (relay_step s p) (λ s'. relay_run s' ps)

join_found-Goes :
    (s : Pending) (q : RelayRequest) (o : Option PendingEntry)
    → IsPaired s
    → Goes (join_found s q o)
unfolding join_found
join_found-Goes s q none h = pending_step-Goes s (first_end q) h
join_found-Goes s q (some e) h = pending_step-Goes s (second_end q) h

handle_admitted-Goes :
    (s : Pending) (q : RelayRequest) (a : Admission) → IsPaired s → Goes (handle_admitted s q a)
unfolding handle_admitted
handle_admitted-Goes s q admitted h = join_found-Goes s q (get s.entries q.session) h
handle_admitted-Goes s q bad_request h = (s, refl, h)
handle_admitted-Goes s q not_found h = (s, refl, h)
handle_admitted-Goes s q unauthorized h = (s, refl, h)

time_out_found-Goes :
    (s : Pending) (c : ℕ) (o : Option Visitor) → IsPaired s → Goes (time_out_found s c o)
unfolding time_out_found
time_out_found-Goes s c none h = (s, refl, h)
time_out_found-Goes s c (some v) h =
    pending_step-Goes (unregister_pending s v.token) (gives_up c) (unregister-IsPaired s v.token h)

relay_step-Goes : (s : Pending) (p : RelayStep) → IsPaired s → Goes (relay_step s p)
unfolding relay_step handle_relay time_out
relay_step-Goes s (requests store q) h = handle_admitted-Goes s q (admission store q) h
relay_step-Goes s (meets c) h = pending_step-Goes s (receives c) h
relay_step-Goes s (times_out c) h = time_out_found-Goes s c (get s.waiting c) h

relay_run-Goes : (s : Pending) (ps : List RelayStep) → IsPaired s → Goes (relay_run s ps)
unfolding relay_run
relay_run-Goes s [] h = (s, refl, h)
relay_run-Goes s (p ∷ ps) h =
    let (s', e, h') = relay_step-Goes s p h in rw e (relay_run-Goes s' ps h')

-- In every order of requests, meetings and time-outs, over any state stores, no request blocks on a channel,
-- and the two ends that are piped together belong to one relay.
pub relay_run-pairs :
    (ps : List RelayStep)
    → (s : Pending) × (relay_run no_pending ps ≡ some s)
      × All (λ (p : Visitor × Tunnel). p.1.token ≡ p.0.token) s.piped
relay_run-pairs ps =
    let (s, e, h) = relay_run-Goes no_pending ps no_pending-IsPaired in (s, e, h.pairs)
