-- ===== src/Session/Pending/Invariant.antt =====
-- BBgrid_Server/session/server.go: the invariant of the pending tunnels, and the steps that send.
use bbgrid.Prelude.{
  ℕ, ◌<◌, ◌≡◌, refl, sym, ap, subst, ◌∙◌, Bool, true, false, Option, none, some, List, [], ◌∷◌,
  Text, ℤ, nat_key, text_key, ◌==◌, inl, inr, Bool-cases, All, nat_eq_iff, ==_refl,
}
use bbgrid.GoMap.{
  get, put, delete, get-delete, delete-found, other_key, get-tail, Unique, delete-Unique, Each,
  delete-Each,
}
use bbgrid.Session.Pending.{
  Tunnel, Visitor, PendingEntry, Pending, held, content, send_to, send, unregister_pending,
  accept_found, is_expired, cleanup_entries,
}
use bbgrid.Session.Pending.Channels.{content-put_other, content-All}

-- A value that a visitor with this token may be given.
abbrev pub CameWith : Text → Option Tunnel → Type 0
CameWith token none = Unit
CameWith token (some t) = t.token ≡ token

pub record IsPaired (s : Pending) : Type 0 where
  pub unique : Unique s.entries
  pub fresh : Each (λ token e. e.chan < s.next_chan) s.entries
  pub empty : Each (λ token e. content s e.chan ≡ []) s.entries
  pub apart :
      (t u : Text) (d e : PendingEntry)
      → get s.entries t ≡ some d
      → get s.entries u ≡ some e
      → d.chan ≡ e.chan
      → t ≡ u
  pub known : Each (λ c v. c < s.next_chan) s.waiting
  pub named :
      (t : Text) (e : PendingEntry) (v : Visitor)
      → get s.entries t ≡ some e
      → get s.waiting e.chan ≡ some v
      → v.token ≡ t
  pub values : Each (λ c v. All (CameWith v.token) (content s c)) s.waiting
  pub pairs : All (λ (p : Visitor × Tunnel). p.1.token ≡ p.0.token) s.piped

-- The state once a value is in the channel of an entry, and the entry is out.
abbrev pub sent : Pending → Text → ℕ → Option Tunnel → Pending
sent s token c v = record s { entries = delete s.entries token; chans = put s.chans c (v ∷ []) }

pub distinct :
    (s : Pending) (t u : Text) (d e : PendingEntry)
    → IsPaired s
    → get s.entries t ≡ some d
    → get s.entries u ≡ some e
    → t == u ≡ false
    → d.chan == e.chan ≡ false
distinct s t u d e h p q n = elim (Bool-cases (d.chan == e.chan)) [
  | inl same ↦
      let equal : t == u ≡ true =
        (text_key.same_iff t u).1 (h.apart t u d e p q ((nat_eq_iff d.chan e.chan).0 same)) in
      cc
  | inr other ↦ other
]

pub sent-IsPaired :
    (s : Pending) (token : Text) (e : PendingEntry) (v : Option Tunnel)
    → IsPaired s
    → get s.entries token ≡ some e
    → CameWith token v
    → IsPaired (sent s token e.chan v)
sent-IsPaired s token e v h found came = record {
  unique = delete-Unique s.entries token h.unique;
  fresh = delete-Each (λ t d. d.chan < s.next_chan) s.entries token h.fresh;
  empty = λ t d p.
      let q = delete-found s.entries token t d p in
      content-put_other s.chans e.chan d.chan (v ∷ []) (distinct s token t e d h found q.1 q.0)
      ∙ h.empty t d q.1;
  apart = λ t u d d' p p'.
      h.apart t u d d' (delete-found s.entries token t d p).1
        (delete-found s.entries token u d' p').1;
  known = h.known;
  named = λ t d w p. h.named t d w (delete-found s.entries token t d p).1;
  values = λ c w p.
      content-All s.chans e.chan c (v ∷ []) (CameWith w.token)
        (λ same.
          let w_token : w.token ≡ token =
            h.named token e w found (subst (λ i. get s.waiting i ≡ some w) (sym same) p) in
          (subst (λ k. CameWith k v) (sym w_token) came, tt))
        (λ other. h.values c w p);
  pairs = h.pairs;
}

pub unregister-IsPaired :
    (s : Pending) (token : Text) → IsPaired s → IsPaired (unregister_pending s token)
unregister-IsPaired s token h = record {
  unique = delete-Unique s.entries token h.unique;
  fresh = delete-Each (λ t d. d.chan < s.next_chan) s.entries token h.fresh;
  empty = delete-Each (λ t d. content s d.chan ≡ []) s.entries token h.empty;
  apart = λ t u d d' p p'.
      h.apart t u d d' (delete-found s.entries token t d p).1
        (delete-found s.entries token u d' p').1;
  known = h.known;
  named = λ t d w p. h.named t d w (delete-found s.entries token t d p).1;
  values = h.values;
  pairs = h.pairs;
}

-- A send to the channel of an entry does not block.
pub send-entry :
    (s s' : Pending) (token : Text) (e : PendingEntry) (v : Option Tunnel)
    → IsPaired s
    → get s.entries token ≡ some e
    → s'.chans ≡ s.chans
    → send s' e.chan v ≡ some (record s' { chans = put s'.chans e.chan (v ∷ []) })
unfolding send send_to
send-entry s s' token e v h found same =
    let none_held : content s' e.chan ≡ [] =
      ap (λ m. held (get m e.chan)) same ∙ h.empty token e found in
    rw none_held refl

-- After a step there is a state again, and it is paired.
abbrev pub Goes : Option Pending → Type 0
Goes o = (s : Pending) × (o ≡ some s) × IsPaired s

pub accept_found-Goes :
    (s : Pending) (t : Tunnel) (acked : Bool) (f : Option PendingEntry)
    → get s.entries t.token ≡ f
    → IsPaired s
    → Goes (accept_found s t acked f)
unfolding accept_found
accept_found-Goes s t acked none found h = (
  _,
  refl,
  record {
    unique = h.unique;
    fresh = h.fresh;
    empty = h.empty;
    apart = h.apart;
    known = h.known;
    named = h.named;
    values = h.values;
    pairs = h.pairs;
  },
)
accept_found-Goes s t true (some e) found h = (
  sent s t.token e.chan (some t),
  send-entry s (unregister_pending s t.token) t.token e (some t) h found refl,
  sent-IsPaired s t.token e (some t) h found refl,
)
accept_found-Goes s t false (some e) found h =
    let u = unregister-IsPaired s t.token h in
    (
      _,
      refl,
      record {
        unique = u.unique;
        fresh = u.fresh;
        empty = u.empty;
        apart = u.apart;
        known = u.known;
        named = u.named;
        values = u.values;
        pairs = u.pairs;
      },
    )

-- The entries that the loop has still to visit are in the map.
abbrev Left : List (Text × PendingEntry) → Pending → Type 0
Left es s = Each (λ token e. get s.entries token ≡ some e) es

pub cleanup_entries-Goes :
    (now : ℤ) (es : List (Text × PendingEntry)) (s : Pending)
    → IsPaired s
    → Unique es
    → Left es s
    → Goes (cleanup_entries now es s)
unfolding cleanup_entries get
cleanup_entries-Goes now [] s h u l = (s, refl, h)
cleanup_entries-Goes now ((token, e) ∷ es) s h u l =
    let found : get s.entries token ≡ some e = l token e (rw (==_refl token) refl) in
    let later : Left es s = λ k v p. l k v (get-tail es token k e v u.0 p) in
    elim (Bool-cases (is_expired e now)) [
      | inl x ↦
          rw (x, send-entry s s token e none h found refl)
            (cleanup_entries-Goes now es (sent s token e.chan none)
              (sent-IsPaired s token e none h found tt) u.1
              (λ k v p.
                rw (get-delete s.entries token k, other_key es token k v u.0 p) (later k v p)))
      | inr x ↦ rw x (cleanup_entries-Goes now es s h u.1 later)
    ]
