-- ===== src/Mux/WriteAccount.antt =====
-- common/mux/mux.go: where the frames that are queued are after a round of `writeLoop`.
use bbgrid.Prelude.{
  ℕ, ◌≡◌, refl, sym, ap, ◌∙◌, Bool, true, false, not, ◌&&◌, ◌||◌, Option, none, some, List, [], ◌∷◌,
  ◌++◌, map, nat_key, nat_eq, nat_eq_iff, ◌==◌, leb, length, if◌then◌else◌, Bool-cases, inl, inr,
  arith,
}
use mathlib.Core.List.{append_assoc, append-nil}
use bbgrid.GoMap.{GoMap, get, put, delete, get-put, get-delete}
use bbgrid.Mux.Frame.{FrameIn, pkt_close, max_frame_size}
use bbgrid.Mux.Channel.{Channel, FrameOut}
use bbgrid.Mux.Multiplexer.{Multiplexer, CtrlFrame, close_channel_local, close_found}
use bbgrid.Mux.WriteLoop.{
  Round, Wire, ctrl_frame, frame_of, channel_ports, fails, write_ctrl_frame, ctrl_part,
  write_queued, serve, data_part, Wake, notified, takes_ctrl, sees_close, idle_part, write_round,
}

abbrev pub queue_of : Option Channel → List FrameOut
queue_of none = []
queue_of (some ch) = ch.send_queue

-- The frames that a channel has queued, as they are to be written.
abbrev pub queued : Wire → ℕ → Multiplexer → List FrameIn
queued wire p m = map (frame_of wire) (queue_of (get m.channels p))

abbrev pub from_port : ℕ → Option ℕ → FrameIn → List FrameIn
from_port p none f = []
from_port p (some q) f = if q == p then f ∷ [] else []

-- The frames of a log that came out of the queue of a channel.
abbrev pub sent_from : ℕ → List (Option ℕ × FrameIn) → List FrameIn
sent_from p [] = []
sent_from p ((o, f) ∷ log) = from_port p o f ++ sent_from p log

-- The control frame that comes first is the CLOSE of the channel.
abbrev pub closes_first : ℕ → List CtrlFrame → Bool
closes_first p [] = false
closes_first p (c ∷ cs) = nat_eq c.ptype pkt_close && c.port == p

pub sent_from-append :
    (p : ℕ) (log : List (Option ℕ × FrameIn)) (o : Option ℕ) (f : FrameIn)
    → sent_from p (log ++ (o, f) ∷ []) ≡ sent_from p log ++ from_port p o f
sent_from-append p [] o f = append-nil (from_port p o f)
sent_from-append p ((q, g) ∷ log) o f =
    ap (λ (fs : List FrameIn). from_port p q g ++ fs) (sent_from-append p log o f)
    ∙ sym (append_assoc (from_port p q g) (sent_from p log) (from_port p o f))

-- What was sent from a channel, followed by what it still has queued.
abbrev account : Wire → ℕ → Round → List FrameIn
account wire p r = sent_from p r.written ++ queued wire p r.mux

queue_of-put :
    (m : GoMap ℕ Channel) (port p : ℕ) (ch : Channel)
    → queue_of (get (put m port ch) p) ≡ (if port == p then ch.send_queue else queue_of (get m p))
queue_of-put m port p ch = elim (Bool-cases (port == p)) [
  | inl e ↦ rw (get-put m port p ch, e) refl
  | inr e ↦ rw (get-put m port p ch, e) refl
]

ctrl_kept :
    (wire : Wire) (r : Round) (cs : List CtrlFrame) (p : ℕ)
    → (write_ctrl_frame wire false r cs).stopped ≡ false
    → account wire p (write_ctrl_frame wire false r cs) ≡ account wire p r
unfolding write_ctrl_frame
ctrl_kept wire r [] p h = refl
ctrl_kept wire r (c ∷ cs) p h =
    elim (Bool-cases (r.mux.closed || not (wire.takes (ctrl_frame c)))) [
      | inl e ↦ let stops : true ≡ false = sym (rw e refl) ∙ h in cc stops
      | inr e ↦ rw e (
          rw (sent_from-append p r.written none (ctrl_frame c)) (
            ap (λ (t : List FrameIn). t ++ queued wire p r.mux)
              (append-nil (sent_from p r.written))))
    ]

if_account :
    (wire : Wire) (p : ℕ) (c : Bool) (x y r : Round)
    → (if c then x else y).stopped ≡ false
    → y.stopped ≡ true
    → account wire p x ≡ account wire p r
    → account wire p (if c then x else y) ≡ account wire p r
if_account wire p true x y r h s e = e
if_account wire p false x y r h s e = cc

-- The first frame of a queue moves to the log.
one_sent :
    (wire : Wire) (r : Round) (port p : ℕ) (ch : Channel) (f : FrameOut) (fs : List FrameOut)
    → get r.mux.channels port ≡ some ch
    → ch.send_queue ≡ f ∷ fs
    → sent_from p (r.written ++ (some port, frame_of wire f) ∷ [])
        ++ map
            (frame_of wire)
            (queue_of (get (put r.mux.channels port (record ch { send_queue = fs })) p))
      ≡ account wire p r
one_sent wire r port p ch f fs found e =
    let log = sent_from-append p r.written (some port) (frame_of wire f) in
    let queue = queue_of-put r.mux.channels port p (record ch { send_queue = fs }) in
    rw (log, queue)
      (elim (Bool-cases (port == p)) [
        | inl s ↦
            let here : queue_of (get r.mux.channels p) ≡ f ∷ fs =
              rw⁻¹ ((nat_eq_iff port p).0 s) (ap queue_of found ∙ e) in
            rw (s, here)
              (append_assoc (sent_from p r.written) (frame_of wire f ∷ []) (map (frame_of wire) fs))
        | inr s ↦ rw s (
            ap (λ (t : List FrameIn). t ++ queued wire p r.mux)
              (append-nil (sent_from p r.written)))
      ])

write_queued-account :
    (wire : Wire) (r : Round) (port p : ℕ) (ch : Channel) (fs : List FrameOut)
    → get r.mux.channels port ≡ some ch
    → ch.send_queue ≡ fs
    → (write_queued wire r port ch fs).stopped ≡ false
    → account wire p (write_queued wire r port ch fs) ≡ account wire p r
unfolding write_queued
write_queued-account wire r port p ch [] found e h = refl
write_queued-account wire r port p ch (f ∷ fs) found e h =
    let m = record r.mux { channels = put r.mux.channels port (record ch { send_queue = fs }) } in
    let fine =
      leb (length (frame_of wire f).payload) max_frame_size && wire.takes (frame_of wire f) in
    let sent = record r {
      mux = m;
      written = r.written ++ (some port, frame_of wire f) ∷ [];
      progress = true;
    } in
    if_account wire p fine sent (fails (record r { mux = m })) r h refl
      (one_sent wire r port p ch f fs found e)

pub serve-account :
    (wire : Wire) (r : Round) (port p : ℕ) (o : Option Channel)
    → get r.mux.channels port ≡ o
    → (serve wire r port o).stopped ≡ false
    → account wire p (serve wire r port o) ≡ account wire p r
unfolding serve
serve-account wire r port p none found h = refl
serve-account wire r port p (some ch) found h =
    write_queued-account wire r port p ch ch.send_queue found refl h

pub data_part-stopped :
    (wire : Wire) (r : Round) (ports : List ℕ)
    → r.stopped ≡ true
    → (data_part wire r ports).stopped ≡ true
unfolding data_part
data_part-stopped wire r [] h = h
data_part-stopped wire r (port ∷ ports) h = simp h (data_part-stopped wire r ports h)

data_part-account :
    (wire : Wire) (r : Round) (ports : List ℕ) (p : ℕ)
    → (data_part wire r ports).stopped ≡ false
    → account wire p (data_part wire r ports) ≡ account wire p r
unfolding data_part
data_part-account wire r [] p h = refl
data_part-account wire r (port ∷ ports) p h =
    let r' = if r.stopped then r else serve wire r port (get r.mux.channels port) in
    elim (Bool-cases r'.stopped) [
      | inl s ↦ let stays = data_part-stopped wire r' ports s in absurd cc
      | inr s ↦ data_part-account wire r' ports p h ∙ served wire r port p r.stopped s
    ]
  where
    served :
        (wire : Wire) (r : Round) (port p : ℕ) (b : Bool)
        → (if b then r else serve wire r port (get r.mux.channels port)).stopped ≡ false
        → account wire p (if b then r else serve wire r port (get r.mux.channels port))
          ≡ account wire p r
    served wire r port p true h = refl
    served wire r port p false h = serve-account wire r port p (get r.mux.channels port) refl h

idle_part-account :
    (wire : Wire) (r : Round) (wake : Wake) (p : ℕ)
    → (idle_part wire r wake).stopped ≡ false
    → account wire p (idle_part wire r wake) ≡ account wire p r
unfolding idle_part
idle_part-account wire r notified p h = refl
idle_part-account wire r (takes_ctrl arrived) p h =
    ctrl_kept wire r (r.mux.ctrl_chan ++ arrived) p h
idle_part-account wire r sees_close p h = cc

queue_of-delete :
    (m : GoMap ℕ Channel) (port p : ℕ)
    → queue_of (get (delete m port) p) ≡ (if port == p then [] else queue_of (get m p))
queue_of-delete m port p = elim (Bool-cases (port == p)) [
  | inl e ↦ rw (get-delete m port p, e) refl
  | inr e ↦ rw (get-delete m port p, e) refl
]

queue_of-close :
    (m : Multiplexer) (port p : ℕ) (o : Option Channel)
    → get m.channels port ≡ o
    → queue_of (get (close_found m port o).channels p)
      ≡ (if port == p then [] else queue_of (get m.channels p))
unfolding close_found
queue_of-close m port p none h = elim (Bool-cases (port == p)) [
  | inl e ↦ rw e (rw⁻¹ ((nat_eq_iff port p).0 e) (rw h refl))
  | inr e ↦ rw e refl
]
queue_of-close m port p (some ch) h = queue_of-delete m.channels port p

queued-cleaned :
    (wire : Wire) (m : Multiplexer) (c : CtrlFrame) (p : ℕ)
    → queued wire p (if nat_eq c.ptype pkt_close then close_channel_local m c.port else m)
      ≡ (if nat_eq c.ptype pkt_close && c.port == p then [] else queued wire p m)
unfolding close_channel_local
queued-cleaned wire m c p = elim (Bool-cases (nat_eq c.ptype pkt_close)) [
  | inl e ↦ rw e (
      ap (map (frame_of wire)) (queue_of-close m c.port p (get m.channels c.port) refl)
      ∙ (elim (Bool-cases (c.port == p)) [ inl s ↦ rw s refl | inr s ↦ rw s refl ]))
  | inr e ↦ rw e refl
]

pub ctrl_account :
    (wire : Wire) (m : Multiplexer) (cs : List CtrlFrame) (p : ℕ)
    → (write_ctrl_frame wire true
        (record { mux = m; written = []; progress = false; stopped = false })
        cs).stopped
      ≡ false
    → account wire p (
        write_ctrl_frame wire true
          (record { mux = m; written = []; progress = false; stopped = false })
          cs)
      ≡ (if closes_first p cs then [] else queued wire p m)
unfolding write_ctrl_frame
ctrl_account wire m [] p h = refl
ctrl_account wire m (c ∷ cs) p h = elim (Bool-cases (m.closed || not (wire.takes (ctrl_frame c)))) [
  | inl e ↦ let stops : true ≡ false = sym (rw e refl) ∙ h in cc stops
  | inr e ↦ rw e (queued-cleaned wire (record m { ctrl_chan = cs }) c p)
]

-- What holds of each branch that goes on holds of the choice.
pub pick :
    (P : Round → Type 0) (c : Bool) (x y : Round)
    → (c ≡ true → x.stopped ≡ false → P x)
    → (c ≡ false → y.stopped ≡ false → P y)
    → (if c then x else y).stopped ≡ false
    → P (if c then x else y)
pick P true x y h k s = h refl s
pick P false x y h k s = k refl s

pub neither : (a b : Bool) → (a || b) ≡ false → a ≡ false
neither a b h = ground arith

-- What a round wrote from a channel, followed by what is still queued, is what was queued.
pub write_round-account :
    (wire : Wire) (m : Multiplexer) (wake : Wake) (p : ℕ)
    → (write_round wire m wake).stopped ≡ false
    → sent_from p (write_round wire m wake).written ++ queued wire p (write_round wire m wake).mux
      ≡ (if closes_first p m.ctrl_chan then [] else queued wire p m)
unfolding write_round ctrl_part
write_round-account wire m wake p h =
    let first = ctrl_part wire m in
    let second = data_part wire first (channel_ports first.mux.channels) in
    let third = idle_part wire second wake in
    let P : Round → Type 0 =
      λ r. account wire p r ≡ (if closes_first p m.ctrl_chan then [] else queued wire p m) in
    let served : first.stopped ≡ false → second.stopped ≡ false → P second = λ s t.
      data_part-account wire first (channel_ports first.mux.channels) p t
      ∙ ctrl_account wire m m.ctrl_chan p s in
    let working = if second.stopped || second.progress then second else third in
    let over : Round = record { mux = m; written = []; progress = false; stopped = true } in
    pick P m.closed over (if first.stopped then first else working) (λ e s. cc s)
      (λ e.
        pick P first.stopped first working (λ f s. let both : true ≡ false = sym f ∙ s in cc both)
          (λ f.
            pick P (second.stopped || second.progress) second third (λ g s. served f s)
              (λ g s.
                idle_part-account wire second wake p s
                ∙ served f (neither second.stopped second.progress g))))
      h
