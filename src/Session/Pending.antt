-- ===== src/Session/Pending.antt =====
-- BBgrid_Server/session/server.go: how the connection of a visitor meets the tunnel that the client opens
-- for it. Each visitor waits at a channel of its own, which holds one value; the map of the pending
-- tunnels leads from a token to the channel. A send to a full channel blocks: then there is no new state.
pub mod Channels
pub mod Invariant
pub mod Steps
pub mod Laws
pub mod Stranded
use bbgrid.Prelude.{
  ℕ, suc, ◌+◌, Bool, true, false, Option, none, some, List, [], ◌∷◌, Text, ℤ, pos, ◌-ℤ◌, ltb_ℤ,
  nat_key, text_key, if◌then◌else◌,
}
use bbgrid.GoMap.{GoMap, get, put, delete}

-- A tunnel, with the token that it came with.
pub record Tunnel : Type 0 where
  pub conn : ℕ
  pub token : Text

-- A visitor, with the token that was drawn for it.
pub record Visitor : Type 0 where
  pub conn : ℕ
  pub token : Text

-- `pendingEntry`
pub record PendingEntry : Type 0 where
  pub chan : ℕ
  pub created_at : ℤ

pub record Pending : Type 0 where
  pub entries : GoMap Text PendingEntry
  -- what each channel holds; nil is sent for an entry that has expired
  pub chans : GoMap ℕ (List (Option Tunnel))
  -- the visitors whose goroutine waits at the channel
  pub waiting : GoMap ℕ Visitor
  pub piped : List (Visitor × Tunnel)
  pub closed_visitors : List Visitor
  pub closed_tunnels : List Tunnel
  pub next_chan : ℕ

abbrev pub no_pending : Pending
no_pending = record {
  entries = [];
  chans = [];
  waiting = [];
  piped = [];
  closed_visitors = [];
  closed_tunnels = [];
  next_chan = 0;
}

abbrev pub held : Option (List (Option Tunnel)) → List (Option Tunnel)
held none = []
held (some vs) = vs

abbrev pub content : Pending → ℕ → List (Option Tunnel)
content s c = held (get s.chans c)

unfoldable pub send_to : Pending → ℕ → Option Tunnel → List (Option Tunnel) → Option Pending
send_to s c v [] = some (record s { chans = put s.chans c (v ∷ []) })
send_to s c v (w ∷ ws) = none

-- `ch <- v`
unfoldable pub send : Pending → ℕ → Option Tunnel → Option Pending
unfolding send_to
send s c v = send_to s c v (content s c)

-- `registerPending` for a visitor, whose goroutine then waits.
unfoldable pub register_pending : Pending → Visitor → ℤ → Pending
register_pending s v now = record s {
  entries = put s.entries v.token (record { chan = s.next_chan; created_at = now });
  chans = put s.chans s.next_chan [];
  waiting = put s.waiting s.next_chan v;
  next_chan = s.next_chan + 1;
}

-- Where the client cannot be told of the visitor, this is closed; its entry stays.
unfoldable pub register_untold : Pending → Visitor → ℤ → Pending
register_untold s v now = record s {
  entries = put s.entries v.token (record { chan = s.next_chan; created_at = now });
  chans = put s.chans s.next_chan [];
  closed_visitors = v ∷ s.closed_visitors;
  next_chan = s.next_chan + 1;
}

-- `unregisterPending`
abbrev pub unregister_pending : Pending → Text → Pending
unregister_pending s token = record s { entries = delete s.entries token }

unfoldable pub accept_found : Pending → Tunnel → Bool → Option PendingEntry → Option Pending
unfolding send
accept_found s t acked none = some (record s { closed_tunnels = t ∷ s.closed_tunnels })
accept_found s t acked (some e) =
    let taken = unregister_pending s t.token in
    if acked
    then send taken e.chan (some t)
    else some (record taken { closed_tunnels = t ∷ s.closed_tunnels })

-- `AcceptTunnel`; `acked` says whether the acknowledgement could be written.
unfoldable pub accept_tunnel : Pending → Tunnel → Bool → Option Pending
unfolding accept_found
accept_tunnel s t acked = accept_found s t acked (get s.entries t.token)

abbrev pub pending_limit : ℕ
pending_limit = 60_000_000_000

abbrev pub is_expired : PendingEntry → ℤ → Bool
is_expired e now = ltb_ℤ (pos pending_limit) (now -ℤ e.created_at)

abbrev pub then_do : Option Pending → (Pending → Option Pending) → Option Pending
then_do none f = none
then_do (some s) f = f s

-- The loop of `cleanupExpired` over the entries that are left.
unfoldable pub cleanup_entries : ℤ → List (Text × PendingEntry) → Pending → Option Pending
unfolding send
cleanup_entries now [] s = some s
cleanup_entries now ((token, e) ∷ es) s =
    then_do
      (if is_expired e now
        then then_do (send s e.chan none) (λ s'. some (unregister_pending s' token))
        else some s)
      (cleanup_entries now es)

-- `cleanupExpired`
unfoldable pub cleanup_expired : Pending → ℤ → Option Pending
unfolding cleanup_entries
cleanup_expired s now = cleanup_entries now s.entries s

-- What the goroutine of a visitor does with a value: it pipes, or closes at nil.
abbrev pub served : Pending → Visitor → Option Tunnel → Pending
served s v none = record s { closed_visitors = v ∷ s.closed_visitors }
served s v (some t) = record s { piped = (v, t) ∷ s.piped }

unfoldable pub receive_from : Pending → ℕ → Option Visitor → List (Option Tunnel) → Pending
receive_from s c none vs = s
receive_from s c (some v) [] = s
receive_from s c (some v) (w ∷ ws) =
    served (record s { waiting = delete s.waiting c; chans = put s.chans c ws }) v w

-- The goroutine takes what its channel holds.
unfoldable pub receive : Pending → ℕ → Pending
unfolding receive_from
receive s c = receive_from s c (get s.waiting c) (content s c)

unfoldable pub give_up_found : Pending → ℕ → Option Visitor → Pending
give_up_found s c none = s
give_up_found s c (some v) = record s {
  waiting = delete s.waiting c;
  closed_visitors = v ∷ s.closed_visitors;
}

-- The goroutine closes its visitor after sixty seconds, or at the stop of the server.
unfoldable pub give_up : Pending → ℕ → Pending
unfolding give_up_found
give_up s c = give_up_found s c (get s.waiting c)

-- The goroutines in any order.
pub data PendingStep : Type 0 where
  registers : Visitor → ℤ → PendingStep
  registers_untold : Visitor → ℤ → PendingStep
  accepts : Tunnel → Bool → PendingStep
  cleans : ℤ → PendingStep
  receives : ℕ → PendingStep
  gives_up : ℕ → PendingStep

unfoldable pub pending_step : Pending → PendingStep → Option Pending
unfolding register_pending register_untold accept_tunnel cleanup_expired receive give_up
pending_step s (registers v now) = some (register_pending s v now)
pending_step s (registers_untold v now) = some (register_untold s v now)
pending_step s (accepts t acked) = accept_tunnel s t acked
pending_step s (cleans now) = cleanup_expired s now
pending_step s (receives c) = some (receive s c)
pending_step s (gives_up c) = some (give_up s c)

unfoldable pub pending_run : Pending → List PendingStep → Option Pending
unfolding pending_step
pending_run s [] = some s
pending_run s (p ∷ ps) = then_do (pending_step s p) (λ s'. pending_run s' ps)
