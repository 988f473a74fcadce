-- ===== src/Session/Relay/Admitted.antt =====
-- BBgrid_Server/session/server.go: who is piped to whom by HandleRelay has been admitted.
use bbgrid.Prelude.{
  ◌≡◌, refl, subst, true, Option, none, some, List, [], ◌∷◌, Text, ℕ, ℤ, pos, text_key, nat_key,
  ◌⊎◌, inl, inr, All, ◌≢◌, sym, ◌∙◌, ◌==◌, ◌||◌, Bool, false, Bool-cases, text_eq_iff,
}
use bbgrid.GoMap.{get, Each, put-Each, delete-Each}
use bbgrid.StateStore.{StateStore, get_relay_session}
use bbgrid.Types.{RelaySession}
use bbgrid.Session.Pending.{
  Tunnel, Visitor, PendingEntry, Pending, no_pending, held, content, send_to, send,
  register_pending, unregister_pending, accept_found, accept_tunnel, then_do, receive_from, receive,
  give_up_found, give_up, pending_step,
}
use bbgrid.Session.Relay.{
  RelayRequest, Admission, bad_request, not_found, unauthorized, admitted, admission, join_found,
  handle_admitted, handle_relay, admission_of, time_out_found, time_out, RelayStep, requests, meets,
  times_out, relay_step, relay_run, relay_run-pairs,
}

-- A request that lacks no parameter, for a relay of the store, with the token that the relay has there.
pub record IsEntitled (store : StateStore) (q : RelayRequest) : Type 0 where
  pub relay : RelaySession
  pub found : get_relay_session store q.session ≡ some relay
  pub same_token : relay.token ≡ q.token
  pub session : q.session ≢ []
  pub token : q.token ≢ []
  pub role : q.role ≢ []
  pub client_id : q.client_id ≢ []

-- The connection came with such a request for this relay.
abbrev AskedBy : RelayStep → ℕ → Text → Type 0
AskedBy (requests store q) conn session =
    IsEntitled store q × (q.conn ≡ conn) × (q.session ≡ session)
AskedBy (meets c) conn session = ⊥
AskedBy (times_out c) conn session = ⊥

abbrev pub Asked : List RelayStep → ℕ → Text → Type 0
Asked [] conn session = ⊥
Asked (p ∷ ps) conn session = AskedBy p conn session ⊎ Asked ps conn session

abbrev OfValue : (ℕ → Text → Type 0) → Option Tunnel → Type 0
OfValue P none = Unit
OfValue P (some t) = P t.conn t.token

not_empty : (t : Text) → t == [] ≡ false → t ≢ []
not_empty [] h = cc
not_empty (b ∷ bs) h = cc

or_false : (a b : Bool) → (a || b) ≡ false → (a ≡ false) × (b ≡ false)
or_false true b h = cc
or_false false b h = (refl, h)

found-token :
    (q : RelayRequest) (o : Option RelaySession)
    → admission_of q o ≡ admitted
    → (r : RelaySession) × (o ≡ some r) × (r.token ≡ q.token)
unfolding admission_of
found-token q none h = cc
found-token q (some r) h = elim (Bool-cases (r.token == q.token)) [
  | inl t ↦ (r, refl, (text_eq_iff r.token q.token).0 t)
  | inr f ↦ let e : unauthorized ≡ admitted = sym (rw f refl) ∙ h in cc
]

admission-IsEntitled :
    (store : StateStore) (q : RelayRequest) → admission store q ≡ admitted → IsEntitled store q
unfolding admission
admission-IsEntitled store q h =
    elim (Bool-cases (q.session == [] || (q.token == [] || (q.role == [] || q.client_id == [])))) [
      | inl t ↦ let e : bad_request ≡ admitted = sym (rw t refl) ∙ h in cc
      | inr f ↦
          let (a, f') = or_false (q.session == []) _ f in
          let (b, f'') = or_false (q.token == []) _ f' in
          let (c, d) = or_false (q.role == []) _ f'' in
          let (r, e, t) = found-token q (get_relay_session store q.session) (sym (rw f refl) ∙ h) in
          record {
            relay = r;
            found = e;
            same_token = t;
            session = not_empty q.session a;
            token = not_empty q.token b;
            role = not_empty q.role c;
            client_id = not_empty q.client_id d;
          }
    ]

-- Each connection of the state has `P` with its relay.
record Vouched (P : ℕ → Text → Type 0) (s : Pending) : Type 0 where
  pub waiting : Each (λ c v. P v.conn v.token) s.waiting
  pub values : Each (λ c vs. All (OfValue P) vs) s.chans
  pub piped : All (λ (p : Visitor × Tunnel). P p.0.conn p.0.token × P p.1.conn p.1.token) s.piped

abbrev Still : (ℕ → Text → Type 0) → Option Pending → Type 0
Still P none = Unit
Still P (some s) = Vouched P s

module _ (P : ℕ → Text → Type 0) where
  register-Vouched :
      (s : Pending) (v : Visitor) (now : ℤ)
      → Vouched P s
      → P v.conn v.token
      → Vouched P (register_pending s v now)
  unfolding register_pending
  register-Vouched s v now h own = record {
    waiting = put-Each (λ c v'. P v'.conn v'.token) s.waiting s.next_chan v h.waiting own;
    values = put-Each (λ c vs. All (OfValue P) vs) s.chans s.next_chan [] h.values tt;
    piped = h.piped;
  }

  unregister-Vouched :
      (s : Pending) (token : Text) → Vouched P s → Vouched P (unregister_pending s token)
  unregister-Vouched s token h = record { waiting = h.waiting; values = h.values; piped = h.piped }

  send-Vouched :
      (s : Pending) (c : ℕ) (t : Tunnel) (vs : List (Option Tunnel))
      → Vouched P s
      → P t.conn t.token
      → Still P (send_to s c (some t) vs)
  unfolding send_to
  send-Vouched s c t [] h own = record {
    waiting = h.waiting;
    values = put-Each (λ d vs. All (OfValue P) vs) s.chans c (some t ∷ []) h.values (own, tt);
    piped = h.piped;
  }
  send-Vouched s c t (w ∷ ws) h own = tt

  accept-Vouched :
      (s : Pending) (t : Tunnel) (o : Option PendingEntry)
      → Vouched P s
      → P t.conn t.token
      → Still P (accept_found s t true o)
  unfolding accept_found send
  accept-Vouched s t none h own = record { waiting = h.waiting; values = h.values; piped = h.piped }
  accept-Vouched s t (some e) h own =
      send-Vouched (unregister_pending s t.token) e.chan t _ (unregister-Vouched s t.token h) own

  held-Vouched :
      (s : Pending) (c : ℕ) (o : Option (List (Option Tunnel)))
      → Vouched P s
      → get s.chans c ≡ o
      → All (OfValue P) (held o)
  held-Vouched s c none h e = tt
  held-Vouched s c (some vs) h e = h.values c vs e

  receive-Vouched :
      (s : Pending) (c : ℕ) (o : Option Visitor) (vs : List (Option Tunnel))
      → Vouched P s
      → get s.waiting c ≡ o
      → All (OfValue P) vs
      → Vouched P (receive_from s c o vs)
  unfolding receive_from
  receive-Vouched s c none vs h e a = h
  receive-Vouched s c (some v) [] h e a = h
  receive-Vouched s c (some v) (none ∷ ws) h e a = record {
    waiting = delete-Each (λ d v'. P v'.conn v'.token) s.waiting c h.waiting;
    values = put-Each (λ d vs. All (OfValue P) vs) s.chans c ws h.values a.1;
    piped = h.piped;
  }
  receive-Vouched s c (some v) (some t ∷ ws) h e a = record {
    waiting = delete-Each (λ d v'. P v'.conn v'.token) s.waiting c h.waiting;
    values = put-Each (λ d vs. All (OfValue P) vs) s.chans c ws h.values a.1;
    piped = ((h.waiting c v e, a.0), h.piped);
  }

  give_up-Vouched :
      (s : Pending) (c : ℕ) (o : Option Visitor) → Vouched P s → Vouched P (give_up_found s c o)
  unfolding give_up_found
  give_up-Vouched s c none h = h
  give_up-Vouched s c (some v) h = record {
    waiting = delete-Each (λ d v'. P v'.conn v'.token) s.waiting c h.waiting;
    values = h.values;
    piped = h.piped;
  }

  join-Vouched :
      (s : Pending) (q : RelayRequest) (o : Option PendingEntry)
      → Vouched P s
      → P q.conn q.session
      → Still P (join_found s q o)
  unfolding join_found pending_step accept_tunnel
  join-Vouched s q none h own = register-Vouched s _ (pos 0) h own
  join-Vouched s q (some e) h own = accept-Vouched s _ (get s.entries q.session) h own

  admitted-Vouched :
      (s : Pending) (q : RelayRequest) (a : Admission)
      → Vouched P s
      → (a ≡ admitted → P q.conn q.session)
      → Still P (handle_admitted s q a)
  unfolding handle_admitted
  admitted-Vouched s q admitted h own = join-Vouched s q (get s.entries q.session) h (own refl)
  admitted-Vouched s q bad_request h own = h
  admitted-Vouched s q not_found h own = h
  admitted-Vouched s q unauthorized h own = h

  time_out-Vouched :
      (s : Pending) (c : ℕ) (o : Option Visitor) → Vouched P s → Still P (time_out_found s c o)
  unfolding time_out_found pending_step give_up
  time_out-Vouched s c none h = h
  time_out-Vouched s c (some v) h =
      give_up-Vouched _ c (get s.waiting c) (unregister-Vouched s v.token h)

  step-Vouched :
      (s : Pending) (p : RelayStep)
      → Vouched P s
      → ((conn : ℕ) (session : Text) → AskedBy p conn session → P conn session)
      → Still P (relay_step s p)
  unfolding relay_step handle_relay time_out pending_step receive
  step-Vouched s (requests store q) h own =
      admitted-Vouched s q (admission store q) h
        (λ e. own q.conn q.session (admission-IsEntitled store q e, refl, refl))
  step-Vouched s (meets c) h own =
      receive-Vouched s c _ (content s c) h refl (held-Vouched s c (get s.chans c) h refl)
  step-Vouched s (times_out c) h own = time_out-Vouched s c (get s.waiting c) h

  bind-Vouched :
      (o : Option Pending) (f : Pending → Option Pending)
      → Still P o
      → ((s : Pending) → Vouched P s → Still P (f s))
      → Still P (then_do o f)
  bind-Vouched none f h k = tt
  bind-Vouched (some s) f h k = k s h

  run-Vouched :
      (ps : List RelayStep) (s : Pending)
      → Vouched P s
      → ((conn : ℕ) (session : Text) → Asked ps conn session → P conn session)
      → Still P (relay_run s ps)
  unfolding relay_run
  run-Vouched [] s h own = h
  run-Vouched (p ∷ ps) s h own =
      bind-Vouched (relay_step s p) (λ s'. relay_run s' ps)
        (step-Vouched s p h (λ conn session a. own conn session (inl a)))
        (λ s' h'. run-Vouched ps s' h' (λ conn session a. own conn session (inr a)))

nobody : (P : ℕ → Text → Type 0) → Vouched P no_pending
unfolding get
nobody P = record { waiting = λ c v e. cc; values = λ c vs e. cc; piped = tt }

-- In every order of requests, meetings and time-outs, over any state stores, no request blocks on a
-- channel; the two ends that are piped together belong to one relay, and each of the two came with a
-- request that lacked no parameter, at a time when the store had this relay with the token of the
-- request.
pub relay_run-Asked :
    (ps : List RelayStep)
    → (s : Pending) × (relay_run no_pending ps ≡ some s)
      × All (λ (p : Visitor × Tunnel). p.1.token ≡ p.0.token) s.piped
      × All
          (λ (p : Visitor × Tunnel). Asked ps p.0.conn p.0.token × Asked ps p.1.conn p.1.token)
          s.piped
relay_run-Asked ps =
    let (s, e, same) = relay_run-pairs ps in
    let asked : Still (Asked ps) (relay_run no_pending ps) =
      run-Vouched (Asked ps) ps no_pending (nobody (Asked ps)) (λ c t a. a) in
    (s, e, same, (subst (Still (Asked ps)) e asked).piped)
