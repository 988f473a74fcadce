-- ===== src/Session/Pending/Laws.antt =====
-- BBgrid_Server/session/server.go: what a visitor and a tunnel can rely on.
use bbgrid.Prelude.{◌≡◌, refl, sym, subst, ◌∙◌, some, List, [], ◌∷◌, nat_key, text_key, All}
use mathlib.Core.Option.{some-injective}
use bbgrid.Session.Pending.{Tunnel, Visitor, Pending, no_pending, PendingStep, pending_run}
use bbgrid.Session.Pending.Invariant.{IsPaired, Goes}
use bbgrid.Session.Pending.Steps.{pending_step-Goes, no_pending-IsPaired}

pub pending_run-Goes : (s : Pending) (ps : List PendingStep) → IsPaired s → Goes (pending_run s ps)
unfolding pending_run
pending_run-Goes s [] h = (s, refl, h)
pending_run-Goes s (p ∷ ps) h =
    let (s', e, h') = pending_step-Goes s p h in rw e (pending_run-Goes s' ps h')

-- In every order of visitors, tunnels, clean-ups, receptions and time-outs no send blocks, so that every
-- run has a last state; and whoever is piped together in it has the same token.
pub pending_run-pairs :
    (ps : List PendingStep)
    → (s : Pending) × (pending_run no_pending ps ≡ some s)
      × All (λ (p : Visitor × Tunnel). p.1.token ≡ p.0.token) s.piped
pending_run-pairs ps =
    let (s, e, h) = pending_run-Goes no_pending ps no_pending-IsPaired in (s, e, h.pairs)

-- Every state that a run reaches is paired.
pub reached-IsPaired :
    (ps : List PendingStep) (s : Pending) → pending_run no_pending ps ≡ some s → IsPaired s
reached-IsPaired ps s ran =
    let goes : Goes (pending_run no_pending ps) =
      pending_run-Goes no_pending ps no_pending-IsPaired in
    subst IsPaired (some-injective goes.0 s (sym goes.1 ∙ ran)) goes.2
