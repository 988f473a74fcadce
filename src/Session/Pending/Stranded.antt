-- ===== src/Session/Pending/Stranded.antt =====
-- BBgrid_Server/session/server.go: a tunnel that comes when its visitor has given up.
use bbgrid.Prelude.{
  ℕ, ◌<◌, ◌≡◌, refl, subst, ◌∙◌, Bool, true, false, Option, none, some, List, [], ◌∷◌, Text, ℤ,
  nat_key, text_key, ◌==◌, inl, inr, Bool-cases, arith, nat_eq_iff, ==_refl,
}
use bbgrid.GoMap.{
  get, put, delete, get-put, get-delete, delete-found, Each, put-Each, delete-Each, get-tail,
  other_key, Unique,
}
use bbgrid.Session.Pending.{
  Tunnel, Visitor, PendingEntry, Pending, content, send_to, send, register_pending, register_untold,
  unregister_pending, accept_found, accept_tunnel, is_expired, then_do, cleanup_entries,
  cleanup_expired, served, receive_from, receive, give_up_found, give_up, PendingStep, registers,
  registers_untold, accepts, cleans, receives, gives_up, pending_step, pending_run,
}
use bbgrid.Session.Pending.Channels.{content-put_other, content-put_same, differ}
use bbgrid.Session.Pending.Invariant.{IsPaired, sent, sent-IsPaired, send-entry, distinct}
use bbgrid.Session.Pending.Laws.{pending_run-Goes}
use bbgrid.Session.Pending.Steps.{pending_step-Goes}

-- A tunnel in a channel at which nobody waits, and to which no entry leads.
pub record IsStranded (s : Pending) (c : ℕ) (t : Tunnel) : Type 0 where
  pub inside : content s c ≡ some t ∷ []
  pub alone : get s.waiting c ≡ none
  pub unreached : Each (λ token e. e.chan == c ≡ false) s.entries
  pub old : c < s.next_chan

-- It is there after a step that ends.
abbrev Stays : Option Pending → ℕ → Tunnel → Type 0
Stays none c t = Unit
Stays (some s) c t = IsStranded s c t

module _ (s : Pending) (c : ℕ) (t : Tunnel) (h : IsStranded s c t) where
  sent-Stays :
      (d : ℕ) (v : Option Tunnel) (vs : List (Option Tunnel))
      → d == c ≡ false
      → Stays (send_to s d v vs) c t
  unfolding send_to
  sent-Stays d v [] n = record {
    inside = content-put_other s.chans d c (v ∷ []) n ∙ h.inside;
    alone = h.alone;
    unreached = h.unreached;
    old = h.old;
  }
  sent-Stays d v (w ∷ ws) n = tt

  unregister-Stays : (token : Text) → IsStranded (unregister_pending s token) c t
  unregister-Stays token = record {
    inside = h.inside;
    alone = h.alone;
    unreached = delete-Each (λ token e. e.chan == c ≡ false) s.entries token h.unreached;
    old = h.old;
  }

  register-Stays : (v : Visitor) (now : ℤ) → IsStranded (register_pending s v now) c t
  unfolding register_pending
  register-Stays v now = record {
    inside = content-put_other s.chans s.next_chan c [] (differ c s.next_chan h.old) ∙ h.inside;
    alone = rw (get-put s.waiting s.next_chan c v, differ c s.next_chan h.old) h.alone;
    unreached =
        put-Each (λ token e. e.chan == c ≡ false) s.entries v.token _ h.unreached
          (differ c s.next_chan h.old);
    old = omega (arith, h.old);
  }

  untold-Stays : (v : Visitor) (now : ℤ) → IsStranded (register_untold s v now) c t
  unfolding register_untold
  untold-Stays v now = record {
    inside = content-put_other s.chans s.next_chan c [] (differ c s.next_chan h.old) ∙ h.inside;
    alone = h.alone;
    unreached =
        put-Each (λ token e. e.chan == c ≡ false) s.entries v.token _ h.unreached
          (differ c s.next_chan h.old);
    old = omega (arith, h.old);
  }

  give_up_found-Stays : (d : ℕ) (f : Option Visitor) → IsStranded (give_up_found s d f) c t
  unfolding give_up_found
  give_up_found-Stays d none = h
  give_up_found-Stays d (some v) = record {
    inside = h.inside;
    alone = ground (arith, get-delete s.waiting d c, h.alone);
    unreached = h.unreached;
    old = h.old;
  }

  served-Stays :
      (d : ℕ) (v : Visitor) (w : Option Tunnel) (ws : List (Option Tunnel))
      → d == c ≡ false
      → IsStranded
          (served (record s { waiting = delete s.waiting d; chans = put s.chans d ws }) v w)
          c
          t
  served-Stays d v none ws n = record {
    inside = content-put_other s.chans d c ws n ∙ h.inside;
    alone = ground (arith, get-delete s.waiting d c, h.alone);
    unreached = h.unreached;
    old = h.old;
  }
  served-Stays d v (some u) ws n = record {
    inside = content-put_other s.chans d c ws n ∙ h.inside;
    alone = ground (arith, get-delete s.waiting d c, h.alone);
    unreached = h.unreached;
    old = h.old;
  }

  receive_from-Stays :
      (d : ℕ) (f : Option Visitor) (vs : List (Option Tunnel))
      → get s.waiting d ≡ f
      → IsStranded (receive_from s d f vs) c t
  unfolding receive_from
  receive_from-Stays d none vs e = h
  receive_from-Stays d (some v) [] e = h
  receive_from-Stays d (some v) (w ∷ ws) e =
      served-Stays d v w ws
        (ground (arith, other_key s.waiting c d v h.alone e, nat_eq_iff c d, nat_eq_iff d c))

accept_found-Stays :
    (s : Pending) (c : ℕ) (t u : Tunnel) (acked : Bool) (f : Option PendingEntry)
    → get s.entries u.token ≡ f
    → IsStranded s c t
    → Stays (accept_found s u acked f) c t
unfolding accept_found send
accept_found-Stays s c t u acked none e h = record {
  inside = h.inside;
  alone = h.alone;
  unreached = h.unreached;
  old = h.old;
}
accept_found-Stays s c t u true (some d) e h =
    sent-Stays _ c t (unregister-Stays s c t h u.token) d.chan (some u) _ (h.unreached u.token d e)
accept_found-Stays s c t u false (some d) e h =
    let r = unregister-Stays s c t h u.token in
    record { inside = r.inside; alone = r.alone; unreached = r.unreached; old = r.old }

-- A bind of steps.
then-Stays :
    (o : Option Pending) (f : Pending → Option Pending) (c : ℕ) (t : Tunnel)
    → Stays o c t
    → ((s : Pending) → IsStranded s c t → Stays (f s) c t)
    → Stays (then_do o f) c t
then-Stays none f c t h k = tt
then-Stays (some s) f c t h k = k s h

cleanup_entries-Stays :
    (now : ℤ) (es : List (Text × PendingEntry)) (s : Pending) (c : ℕ) (t : Tunnel)
    → Unique es
    → Each (λ token e. e.chan == c ≡ false) es
    → IsStranded s c t
    → Stays (cleanup_entries now es s) c t
unfolding cleanup_entries send get
cleanup_entries-Stays now [] s c t u l h = h
cleanup_entries-Stays now ((token, e) ∷ es) s c t u l h =
    let head : e.chan == c ≡ false = l token e (rw (==_refl token) refl) in
    let rest : (s' : Pending) → IsStranded s' c t → Stays (cleanup_entries now es s') c t = λ s'.
      cleanup_entries-Stays now es s' c t u.1 (λ k v p. l k v (get-tail es token k e v u.0 p)) in
    elim (Bool-cases (is_expired e now)) [
      | inl x ↦ rw x (
          then-Stays _ _ c t
            (then-Stays (send_to s e.chan none (content s e.chan))
              (λ s'. some (unregister_pending s' token)) c t
              (sent-Stays s c t h e.chan none (content s e.chan) head)
              (λ s' h'. unregister-Stays s' c t h' token))
            rest)
      | inr x ↦ rw x (rest s h)
    ]

pending_step-Stays :
    (s : Pending) (c : ℕ) (t : Tunnel) (p : PendingStep)
    → IsPaired s
    → IsStranded s c t
    → Stays (pending_step s p) c t
unfolding pending_step accept_tunnel cleanup_expired receive give_up
pending_step-Stays s c t (registers v now) i h = register-Stays s c t h v now
pending_step-Stays s c t (registers_untold v now) i h = untold-Stays s c t h v now
pending_step-Stays s c t (accepts u acked) i h = accept_found-Stays s c t u acked _ refl h
pending_step-Stays s c t (cleans now) i h =
    cleanup_entries-Stays now s.entries s c t i.unique h.unreached h
pending_step-Stays s c t (receives d) i h = receive_from-Stays s c t h d _ _ refl
pending_step-Stays s c t (gives_up d) i h = give_up_found-Stays s c t h d _

pending_run-Stays :
    (s : Pending) (c : ℕ) (t : Tunnel) (ps : List PendingStep)
    → IsPaired s
    → IsStranded s c t
    → Stays (pending_run s ps) c t
unfolding pending_run
pending_run-Stays s c t [] i h = h
pending_run-Stays s c t (p ∷ ps) i h =
    let (s', e, i') = pending_step-Goes s p i in
    rw e
      (pending_run-Stays s' c t ps i' (subst (λ o. Stays o c t) e (pending_step-Stays s c t p i h)))

accepted :
    (s : Pending) (t : Tunnel) (e : PendingEntry)
    → IsPaired s
    → get s.entries t.token ≡ some e
    → accept_tunnel s t true ≡ some (sent s t.token e.chan (some t))
unfolding accept_tunnel accept_found
accepted s t e i found =
    rw (found, send-entry s (unregister_pending s t.token) t.token e (some t) i found refl) refl

sent-IsStranded :
    (s : Pending) (t : Tunnel) (e : PendingEntry)
    → IsPaired s
    → get s.entries t.token ≡ some e
    → get s.waiting e.chan ≡ none
    → IsStranded (sent s t.token e.chan (some t)) e.chan t
sent-IsStranded s t e i found alone = record {
  inside = content-put_same s.chans e.chan (some t ∷ []);
  alone = alone;
  unreached = λ u d p.
      let q = delete-found s.entries t.token u d p in
      ground (arith, distinct s t.token u e d i found q.1 q.0);
  old = i.fresh t.token e found;
}

-- In a paired state, as every run reaches, a tunnel whose visitor has given up, while its entry is
-- still there, is acknowledged and put into the channel; whatever happens after that, it stays there
-- and nobody waits for it.
pub accept_tunnel-strands :
    (s : Pending) (t : Tunnel) (e : PendingEntry) (ps : List PendingStep)
    → IsPaired s
    → get s.entries t.token ≡ some e
    → get s.waiting e.chan ≡ none
    → (s' : Pending) × (pending_run s (accepts t true ∷ ps) ≡ some s') × IsStranded s' e.chan t
unfolding pending_run pending_step
accept_tunnel-strands s t e ps i found alone =
    let (s', ran, i') = pending_run-Goes s (accepts t true ∷ ps) i in
    (
      s',
      ran,
      subst (λ o. Stays o e.chan t) ran
          (rw (accepted s t e i found) (
            pending_run-Stays (sent s t.token e.chan (some t)) e.chan t ps
              (sent-IsPaired s t.token e (some t) i found refl)
              (sent-IsStranded s t e i found alone))),
    )
