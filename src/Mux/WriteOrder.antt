-- ===== src/Mux/WriteOrder.antt =====
-- common/mux/mux.go: what a round of `writeLoop` does to the frames that are queued.
use bbgrid.Prelude.{
  ℕ, ◌≡◌, refl, sym, subst, Bool, true, false, not, ◌||◌, none, List, [], ◌∷◌, ◌++◌, nat_key,
  if◌then◌else◌, arith, take,
}
use bbgrid.GoMap.{GoMap}
use bbgrid.Mux.Frame.{pkt_close}
use bbgrid.Mux.Channel.{Channel}
use bbgrid.Mux.Multiplexer.{Multiplexer, CtrlFrame}
use bbgrid.Mux.WriteLoop.{Round, Wire, ctrl_frame, write_ctrl_frame, takes_ctrl, idle_part}
use bbgrid.Mux.WriteAccount.{queued, sent_from}

-- What a walk over channels sends from `p`, if it is to serve `p`.
abbrev SentOnce : Wire → ℕ → Round → Round → Bool → Type 0
SentOnce wire p r r' has =
    sent_from p r'.written
    ≡ sent_from p r.written ++ (if has then take 1 (queued wire p r.mux) else [])

-- A CLOSE that the loop takes while it waits is written, but its channel is left as it was: it stays in
-- the table, open and with its queues.
idle_part-close :
    (wire : Wire) (r : Round) (arrived : List CtrlFrame) (c : CtrlFrame) (cs : List CtrlFrame)
    → r.mux.ctrl_chan ++ arrived ≡ c ∷ cs
    → c.ptype ≡ pkt_close
    → r.mux.closed ≡ false
    → wire.takes (ctrl_frame c) ≡ true
    → ((idle_part wire r (takes_ctrl arrived)).written ≡ r.written ++ (none, ctrl_frame c) ∷ [])
      × ((idle_part wire r (takes_ctrl arrived)).mux.channels ≡ r.mux.channels)
unfolding idle_part write_ctrl_frame
idle_part-close wire r arrived c cs e k o t =
    let fine : (r.mux.closed || not (wire.takes (ctrl_frame c))) ≡ false = ground (arith, o, t) in
    subst
      (λ (q : List CtrlFrame).
        ((write_ctrl_frame wire false r q).written ≡ r.written ++ (none, ctrl_frame c) ∷ [])
        × ((write_ctrl_frame wire false r q).mux.channels ≡ r.mux.channels))
      (sym e) (rw fine (refl, refl))
