-- ===== src/Session/Pending/Steps.antt =====
-- BBgrid_Server/session/server.go: every step keeps the invariant of the pending tunnels.
use bbgrid.Prelude.{
  ℕ, ◌+◌, ◌<◌, ◌≡◌, refl, sym, ap, subst, ◌∙◌, Option, none, some, List, [], ◌∷◌, Text, ℤ, nat_key,
  text_key, ◌==◌, inl, inr, Bool-cases, All, arith, nat_eq_iff,
}
use bbgrid.GoMap.{
  GoMap, get, put, delete, put-found, delete-found, put-Unique, Each, put-Each, delete-Each,
}
use bbgrid.Session.Pending.{
  Tunnel, Visitor, PendingEntry, Pending, no_pending, held, content, register_pending,
  register_untold, accept_tunnel, cleanup_expired, served, receive_from, receive, give_up_found,
  give_up, PendingStep, registers, registers_untold, accepts, cleans, receives, gives_up,
  pending_step,
}
use bbgrid.Session.Pending.Channels.{
  content-put_other, content-put_same, content-All, differ, same_differ,
}
use bbgrid.Session.Pending.Invariant.{
  CameWith, IsPaired, Goes, accept_found-Goes, cleanup_entries-Goes,
}

-- A new channel is empty, and belongs to the new entry only.
module _ (s : Pending) (token : Text) (now : ℤ) (h : IsPaired s) where
  abbrev new_entry : PendingEntry
  new_entry = record { chan = s.next_chan; created_at = now }

  abbrev entered : GoMap Text PendingEntry
  entered = put s.entries token new_entry

  abbrev opened : GoMap ℕ (List (Option Tunnel))
  opened = put s.chans s.next_chan []

  entered-fresh : Each (λ t e. e.chan < s.next_chan + 1) entered
  entered-fresh =
      put-Each (λ t e. e.chan < s.next_chan + 1) s.entries token new_entry
        (λ t e p. omega (arith, h.fresh t e p)) (omega arith)

  entered-empty : Each (λ t e. held (get opened e.chan) ≡ []) entered
  entered-empty =
      put-Each (λ t e. held (get opened e.chan) ≡ []) s.entries token new_entry
        (λ t e p.
          content-put_other s.chans s.next_chan e.chan []
            (differ e.chan s.next_chan (h.fresh t e p))
          ∙ h.empty t e p)
        (content-put_same s.chans s.next_chan [])

  entered-apart :
      (t u : Text) (d e : PendingEntry)
      → get entered t ≡ some d
      → get entered u ≡ some e
      → d.chan ≡ e.chan
      → t ≡ u
  entered-apart t u d e p q same = elim (put-found s.entries token t new_entry d p) [
    | inl (a, b) ↦ elim (put-found s.entries token u new_entry e q) [
      | inl (a', b') ↦ sym a ∙ a'
      | inr (n, old) ↦
          absurd (omega (arith, h.fresh u e old, ap (λ (x : PendingEntry). x.chan) b, same))
    ]
    | inr (n, old) ↦ elim (put-found s.entries token u new_entry e q) [
      | inl (a', b') ↦
          absurd (omega (arith, h.fresh t d old, ap (λ (x : PendingEntry). x.chan) b', same))
      | inr (n', old') ↦ h.apart t u d e old old' same
    ]
  ]

register_pending-IsPaired :
    (s : Pending) (v : Visitor) (now : ℤ) → IsPaired s → IsPaired (register_pending s v now)
unfolding register_pending
register_pending-IsPaired s v now h = record {
  unique = put-Unique s.entries v.token _ h.unique;
  fresh = entered-fresh s v.token now h;
  empty = entered-empty s v.token now h;
  apart = entered-apart s v.token now h;
  known =
      put-Each (λ c w. c < s.next_chan + 1) s.waiting s.next_chan v
        (λ c w p. omega (arith, h.known c w p)) (omega arith);
  named = λ t e w p q. elim (put-found s.entries v.token t _ e p) [
    | inl (a, b) ↦ elim (put-found s.waiting s.next_chan e.chan v w q) [
      | inl (a', b') ↦ sym (ap (λ (x : Visitor). x.token) b') ∙ a
      | inr (n, old) ↦
          absurd (omega (arith, h.known e.chan w old, ap (λ (x : PendingEntry). x.chan) b))
    ]
    | inr (n, old) ↦ elim (put-found s.waiting s.next_chan e.chan v w q) [
      | inl (a', b') ↦ absurd (omega (arith, h.fresh t e old, a'))
      | inr (n', old') ↦ h.named t e w old old'
    ]
  ];
  values = λ c w p.
      content-All s.chans s.next_chan c [] (CameWith w.token) (λ same. tt)
        (λ other. elim (put-found s.waiting s.next_chan c v w p) [
          | inl (a, b) ↦ absurd (same_differ s.next_chan c a other)
          | inr (n, old) ↦ h.values c w old
        ]);
  pairs = h.pairs;
}

register_untold-IsPaired :
    (s : Pending) (v : Visitor) (now : ℤ) → IsPaired s → IsPaired (register_untold s v now)
unfolding register_untold
register_untold-IsPaired s v now h = record {
  unique = put-Unique s.entries v.token _ h.unique;
  fresh = entered-fresh s v.token now h;
  empty = entered-empty s v.token now h;
  apart = entered-apart s v.token now h;
  known = λ c w p. omega (arith, h.known c w p);
  named = λ t e w p q. elim (put-found s.entries v.token t _ e p) [
    | inl (a, b) ↦ absurd (omega (arith, h.known e.chan w q, ap (λ (x : PendingEntry). x.chan) b))
    | inr (n, old) ↦ h.named t e w old q
  ];
  values = λ c w p.
      content-All s.chans s.next_chan c [] (CameWith w.token) (λ same. tt)
        (λ other. h.values c w p);
  pairs = h.pairs;
}

give_up_found-IsPaired :
    (s : Pending) (c : ℕ) (f : Option Visitor) → IsPaired s → IsPaired (give_up_found s c f)
unfolding give_up_found
give_up_found-IsPaired s c none h = h
give_up_found-IsPaired s c (some v) h = record {
  unique = h.unique;
  fresh = h.fresh;
  empty = h.empty;
  apart = h.apart;
  known = delete-Each (λ c w. c < s.next_chan) s.waiting c h.known;
  named = λ t e w p q. h.named t e w p (delete-found s.waiting c e.chan w q).1;
  values = delete-Each (λ c w. All (CameWith w.token) (content s c)) s.waiting c h.values;
  pairs = h.pairs;
}

-- The channel of an entry holds nothing, so it is not one from which a value is taken.
taken-empty :
    (s : Pending) (c : ℕ) (w : Option Tunnel) (ws : List (Option Tunnel))
    → IsPaired s
    → content s c ≡ w ∷ ws
    → Each (λ t e. held (get (put s.chans c ws) e.chan) ≡ []) s.entries
taken-empty s c w ws h full t e p = elim (Bool-cases (c == e.chan)) [
  | inl same ↦
      absurd (
        cons_not_nil w ws
          (sym full ∙ ap (content s) ((nat_eq_iff c e.chan).0 same) ∙ h.empty t e p))
  | inr other ↦ content-put_other s.chans c e.chan ws other ∙ h.empty t e p
]
  where
    cons_not_nil : (w : Option Tunnel) (ws : List (Option Tunnel)) → w ∷ ws ≡ [] → ⊥
    cons_not_nil w ws e = cc

served-IsPaired :
    (s : Pending) (v : Visitor) (w : Option Tunnel)
    → CameWith v.token w
    → IsPaired s
    → IsPaired (served s v w)
served-IsPaired s v none came h = record {
  unique = h.unique;
  fresh = h.fresh;
  empty = h.empty;
  apart = h.apart;
  known = h.known;
  named = h.named;
  values = h.values;
  pairs = h.pairs;
}
served-IsPaired s v (some t) came h = record {
  unique = h.unique;
  fresh = h.fresh;
  empty = h.empty;
  apart = h.apart;
  known = h.known;
  named = h.named;
  values = h.values;
  pairs = (came, h.pairs);
}

taken-IsPaired :
    (s : Pending) (c : ℕ) (w : Option Tunnel) (ws : List (Option Tunnel))
    → content s c ≡ w ∷ ws
    → IsPaired s
    → IsPaired (record s { waiting = delete s.waiting c; chans = put s.chans c ws })
taken-IsPaired s c w ws full h = record {
  unique = h.unique;
  fresh = h.fresh;
  empty = taken-empty s c w ws h full;
  apart = h.apart;
  known = delete-Each (λ c w. c < s.next_chan) s.waiting c h.known;
  named = λ t e w p q. h.named t e w p (delete-found s.waiting c e.chan w q).1;
  values = λ d x p.
      let (n, old) = delete-found s.waiting c d x p in
      content-All s.chans c d ws (CameWith x.token) (λ same. absurd (same_differ c d same n))
        (λ other. h.values d x old);
  pairs = h.pairs;
}

receive_from-IsPaired :
    (s : Pending) (c : ℕ) (f : Option Visitor) (vs : List (Option Tunnel))
    → get s.waiting c ≡ f
    → content s c ≡ vs
    → IsPaired s
    → IsPaired (receive_from s c f vs)
unfolding receive_from
receive_from-IsPaired s c none vs e full h = h
receive_from-IsPaired s c (some v) [] e full h = h
receive_from-IsPaired s c (some v) (w ∷ ws) e full h =
    let came : All (CameWith v.token) (w ∷ ws) =
      subst (All (CameWith v.token)) full (h.values c v e) in
    served-IsPaired _ v w came.0 (taken-IsPaired s c w ws full h)

-- Every step has a state after it.
pub pending_step-Goes : (s : Pending) (p : PendingStep) → IsPaired s → Goes (pending_step s p)
unfolding pending_step accept_tunnel cleanup_expired receive give_up
pending_step-Goes s (registers v now) h = (_, refl, register_pending-IsPaired s v now h)
pending_step-Goes s (registers_untold v now) h = (_, refl, register_untold-IsPaired s v now h)
pending_step-Goes s (accepts t acked) h = accept_found-Goes s t acked _ refl h
pending_step-Goes s (cleans now) h =
    cleanup_entries-Goes now s.entries s h h.unique (λ token e found. found)
pending_step-Goes s (receives c) h = (_, refl, receive_from-IsPaired s c _ _ refl refl h)
pending_step-Goes s (gives_up c) h = (_, refl, give_up_found-IsPaired s c _ h)

-- At the start nothing is pending.
pub no_pending-IsPaired : IsPaired no_pending
unfolding get
no_pending-IsPaired = record {
  unique = tt;
  fresh = λ t e p. cc;
  empty = λ t e p. cc;
  apart = λ t u d e p q same. cc;
  known = λ c v p. cc;
  named = λ t e v p q. cc;
  values = λ c v p. cc;
  pairs = tt;
}
