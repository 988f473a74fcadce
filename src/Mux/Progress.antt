-- ===== src/Mux/Progress.antt =====
-- common/mux/mux.go: a sender that waits for the window does not wait for ever.
use bbgrid.Prelude.{
  ℕ, ◌+◌, ◌^◌, ◌≤◌, ◌<◌, ◌≡◌, refl, sym, ap, ◌∙◌, false, Option, none, some, List, [], ◌∷◌, map,
  Text, ℤ, pos, ◌+ℤ◌, arith, inl, inr, Bool-cases,
}
use bbgrid.Mux.Frame.{max_frame_size, put_u32}
use bbgrid.Mux.Channel.{
  Channel, int32, should_send, lacks_window, add_window, consume, window_threshold,
}
use bbgrid.Mux.Flow.{
  Link, Step, send, read_whole, update, Reach, here, next, Conserves, after_consume, open_link, sum,
  int32_small, plus_small, wire_size, Reach-Conserves, open_link-Conserves,
}

-- Less than sixteen kilobytes are held back.
record HoldsLittle (l : Link) : Type 0 where
  held : ℕ
  at_receiver : l.receiver.pending_consumed ≡ pos held
  little : held < window_threshold

record Holds (ch : Channel) : Type 0 where
  held : ℕ
  at_channel : ch.pending_consumed ≡ pos held
  little : held < window_threshold

consume-Holds :
    (ch : Channel) (p n : ℕ) (now : ℤ)
    → ch.pending_consumed ≡ pos p
    → p + n < 2 ^ 31
    → Holds (consume ch n now).0
unfolding consume should_send
consume-Holds ch p n now e h =
    let total : int32 (ch.pending_consumed +ℤ int32 (pos n)) ≡ pos (p + n) =
      rw (int32_small n (omega arith), e, plus_small p n) (int32_small (p + n) h) in
    elim (Bool-cases (should_send (pos (p + n)) ch now)) [
      | inl due ↦ rw (total, due) (record { held = 0; at_channel = refl; little = omega arith })
      | inr held ↦
          rw (total, held) (record { held = p + n; at_channel = refl; little = ground arith })
    ]

after_consume-HoldsLittle :
    (l : Link) (rest : List ℕ) (r : Channel × Option Text)
    → Holds r.0
    → HoldsLittle (after_consume l rest r)
after_consume-HoldsLittle l rest (ch, none) h = record {
  held = h.held;
  at_receiver = h.at_channel;
  little = h.little;
}
after_consume-HoldsLittle l rest (ch, some u) h = record {
  held = h.held;
  at_receiver = h.at_channel;
  little = h.little;
}

Step-HoldsLittle : {l m : Link} → Step l m → Conserves l → HoldsLittle l → HoldsLittle m
Step-HoldsLittle (send l n room) c h = record {
  held = h.held;
  at_receiver = h.at_receiver;
  little = h.little;
}
Step-HoldsLittle (read_whole l n rest now e) c h =
    after_consume-HoldsLittle l rest (consume l.receiver n now) (
      consume-Holds l.receiver c.held n now c.at_receiver
        (omega (arith, c.total, wire_size l.wire n rest e)))
Step-HoldsLittle (update l u rest e) c h = record {
  held = h.held;
  at_receiver = h.at_receiver;
  little = h.little;
}

Reach-HoldsLittle : {l m : Link} → Conserves l → HoldsLittle l → Reach l m → HoldsLittle m
Reach-HoldsLittle c h here = h
Reach-HoldsLittle c h (next r st) =
    Step-HoldsLittle st (Reach-Conserves c r) (Reach-HoldsLittle c h r)

nothing_announced : (ns : List ℕ) → map put_u32 ns ≡ [] → sum ns ≡ 0
unfolding sum
nothing_announced [] e = refl
nothing_announced (n ∷ ns) e = cc

-- Once nothing is on the way, the window has room for any frame.
room_when_idle :
    (l : Link) (n : ℕ)
    → Conserves l
    → HoldsLittle l
    → l.wire ≡ []
    → l.updates ≡ []
    → n ≤ max_frame_size
    → lacks_window l.sender (pos n) ≡ false
unfolding lacks_window sum
room_when_idle l n c h w u small =
    let same : pos c.held ≡ pos h.held = sym c.at_receiver ∙ h.at_receiver in
    let held : c.held ≡ h.held = cc in
    let silent = nothing_announced c.announced (sym c.in_updates ∙ u) in
    let window : n ≤ c.window = omega (arith, c.total, ap sum w, silent, held, h.little) in
    rw c.at_sender (ground arith)

Reach_trans : {l m k : Link} → Reach l m → Reach m k → Reach l k
Reach_trans r here = r
Reach_trans r (next s st) = next (Reach_trans r s) st

abbrev IsNoSend : {l m : Link} → Step l m → Type 0
IsNoSend (send l n room) = ⊥
IsNoSend (read_whole l n rest now e) = Unit
IsNoSend (update l u rest e) = Unit

-- Nothing is sent on the way from the one state to the other.
abbrev pub IsSendless : {l m : Link} → Reach l m → Type 0
IsSendless here = Unit
IsSendless (next r st) = IsSendless r × IsNoSend st

Reach_trans-IsSendless :
    {l m k : Link} (r : Reach l m) (s : Reach m k)
    → IsSendless r
    → IsSendless s
    → IsSendless (Reach_trans r s)
unfolding Reach_trans
Reach_trans-IsSendless r here h _ = h
Reach_trans-IsSendless r (next s st) h (g, i) = (Reach_trans-IsSendless r s h g, i)

after_consume-wire :
    (l : Link) (rest : List ℕ) (r : Channel × Option Text) → (after_consume l rest r).wire ≡ rest
after_consume-wire l rest (ch, none) = refl
after_consume-wire l rest (ch, some u) = refl

-- The reader takes the messages that are on the way, one after the other.
drain_wire :
    (l : Link) (ns : List ℕ)
    → l.wire ≡ ns
    → (m : Link) × (r : Reach l m) × IsSendless r × (m.wire ≡ [])
drain_wire l [] e = (l, here, tt, e)
drain_wire l (n ∷ ns) e =
    let step = read_whole l n ns (pos 0) e in
    let (m, r, h, w) =
      drain_wire (after_consume l ns (consume l.receiver n (pos 0))) ns
        (after_consume-wire l ns (consume l.receiver n (pos 0))) in
    (m, Reach_trans (next here step) r, Reach_trans-IsSendless (next here step) r (tt, tt) h, w)

-- Then the updates arrive.
update_all :
    (l : Link) (us : List Text)
    → l.updates ≡ us
    → l.wire ≡ []
    → (m : Link) × (r : Reach l m) × IsSendless r × (m.wire ≡ []) × (m.updates ≡ [])
update_all l [] e w = (l, here, tt, w, e)
update_all l (u ∷ us) e w =
    let step = update l u us e in
    let (m, r, h, w', e') =
      update_all (record l { sender = add_window l.sender u; updates = us }) us refl w in
    (
      m,
      Reach_trans (next here step) r,
      Reach_trans-IsSendless (next here step) r (tt, tt) h,
      w',
      e',
    )

-- From every state that the two ends reach by sends, reads of whole messages and arrivals of updates,
-- reads of whole messages and arrivals of updates alone, with nothing sent, lead to a state whose
-- window has room for a frame of any size up to 65535 bytes.
pub window_reopens :
    (port : ℕ) (t u : ℤ) (l : Link) (n : ℕ)
    → Reach (open_link port t u) l
    → n ≤ max_frame_size
    → (m : Link) × (r : Reach l m) × IsSendless r × (lacks_window m.sender (pos n) ≡ false)
window_reopens port t u l n r small =
    let (m, reads, g, w) = drain_wire l l.wire refl in
    let (k, arrives, i, w', e) = update_all m m.updates refl w in
    let all = Reach_trans r (Reach_trans reads arrives) in
    let c = open_link-Conserves port t u in
    let h : HoldsLittle (open_link port t u) = record {
      held = 0;
      at_receiver = refl;
      little = omega arith;
    } in
    (
      k,
      Reach_trans reads arrives,
      Reach_trans-IsSendless reads arrives g i,
      room_when_idle k n (Reach-Conserves c all) (Reach-HoldsLittle c h all) w' e small,
    )
