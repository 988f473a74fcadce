-- ===== src/Mux/WriteLoop.antt =====
-- common/mux/mux.go: `writeLoop`, one round at a time. Which frames reach the connection is an argument;
-- the log of a round holds the frames that were written whole, each with the port of the channel that it
-- was queued in; a control frame has none. While a round runs, nobody else touches the channels; the
-- control frames that arrive while it waits are an argument of what ends the wait.
use bbgrid.Prelude.{
  ℕ, Bool, true, false, not, ◌&&◌, ◌||◌, Option, none, some, List, [], ◌∷◌, ◌++◌, Text, nat_key,
  nat_eq, leb, length, if◌then◌else◌,
}
use bbgrid.GoMap.{GoMap, get, put}
use bbgrid.Mux.Frame.{FrameIn, pkt_data, pkt_open, pkt_close, max_frame_size}
use bbgrid.Mux.Channel.{Channel, FrameOut}
use bbgrid.Mux.Multiplexer.{Multiplexer, CtrlFrame, close_channel_local}

pub record Round : Type 0 where
  pub mux : Multiplexer
  pub written : List (Option ℕ × FrameIn)
  pub progress : Bool
  -- the loop has returned
  pub stopped : Bool

-- The connection: whether it takes a frame, and the bytes that splice moves from a descriptor.
pub record Wire : Type 0 where
  pub takes : FrameIn → Bool
  pub spliced : ℕ → ℕ → Text

abbrev pub ctrl_frame : CtrlFrame → FrameIn
ctrl_frame c = record { port = c.port; ptype = c.ptype; payload = [] }

abbrev pub payload_of : Wire → Text → ℕ → Option ℕ → Text
payload_of wire payload n none = payload
payload_of wire payload n (some fd) = wire.spliced fd n

abbrev pub frame_of : Wire → FrameOut → FrameIn
frame_of wire f = record {
  port = f.port;
  ptype = if f.ctrl then pkt_open else pkt_data;
  payload = payload_of wire f.payload f.n f.src_fd;
}

abbrev pub channel_ports : GoMap ℕ Channel → List ℕ
channel_ports [] = []
channel_ports ((port, ch) ∷ m) = port ∷ channel_ports m

-- `m.Close(); return`
abbrev pub fails : Round → Round
fails r = record r { mux = record r.mux { closed = true }; stopped = true }

-- A control frame is taken; `cleans` says whether its channel is cleaned up after a CLOSE.
unfoldable pub write_ctrl_frame : Wire → Bool → Round → List CtrlFrame → Round
unfolding close_channel_local
write_ctrl_frame wire cleans r [] = r
write_ctrl_frame wire cleans r (c ∷ cs) =
    let m = record r.mux { ctrl_chan = cs } in
    let cleaned = close_channel_local m c.port in
    if m.closed || not (wire.takes (ctrl_frame c)) then fails (record r { mux = m }) else record r {
      mux = if cleans && nat_eq c.ptype pkt_close then cleaned else m;
      written = r.written ++ (none, ctrl_frame c) ∷ [];
      progress = true;
    }

-- The first part: a control frame comes before all data.
unfoldable pub ctrl_part : Wire → Multiplexer → Round
unfolding write_ctrl_frame
ctrl_part wire m =
    write_ctrl_frame wire true (record { mux = m; written = []; progress = false; stopped = false })
      m.ctrl_chan

unfoldable pub write_queued : Wire → Round → ℕ → Channel → List FrameOut → Round
write_queued wire r port ch [] = r
write_queued wire r port ch (f ∷ fs) =
    let m = record r.mux { channels = put r.mux.channels port (record ch { send_queue = fs }) } in
    if leb (length (frame_of wire f).payload) max_frame_size && wire.takes (frame_of wire f)
    then record r {
      mux = m;
      written = r.written ++ (some port, frame_of wire f) ∷ [];
      progress = true;
    }
    else fails (record r { mux = m })

-- One channel of the list is served; one that was closed meanwhile has nothing to send.
unfoldable pub serve : Wire → Round → ℕ → Option Channel → Round
unfolding write_queued
serve wire r port none = r
serve wire r port (some ch) = write_queued wire r port ch ch.send_queue

-- The second part, over the channels that were listed at its start. It ends at the first error.
unfoldable pub data_part : Wire → Round → List ℕ → Round
unfolding serve
data_part wire r [] = r
data_part wire r (port ∷ ports) =
    data_part wire (if r.stopped then r else serve wire r port (get r.mux.channels port)) ports

-- What ends the wait of a round that wrote nothing.
pub data Wake : Type 0 where
  -- a notification, or the timer
  notified : Wake
  -- the control queue has a frame, after those that have arrived meanwhile
  takes_ctrl : List CtrlFrame → Wake
  sees_close : Wake

-- The third part: a control frame that is taken here is written, but its channel is not cleaned up.
unfoldable pub idle_part : Wire → Round → Wake → Round
unfolding write_ctrl_frame
idle_part wire r notified = r
idle_part wire r (takes_ctrl arrived) = write_ctrl_frame wire false r (r.mux.ctrl_chan ++ arrived)
idle_part wire r sees_close = record r { stopped = true }

-- One round of `writeLoop`. Where there is no channel, the second part does nothing, and the code
-- waits in the same way.
unfoldable pub write_round : Wire → Multiplexer → Wake → Round
unfolding ctrl_part data_part idle_part
write_round wire m wake =
    let first = ctrl_part wire m in
    let second = data_part wire first (channel_ports first.mux.channels) in
    let third = idle_part wire second wake in
    if m.closed
    then record { mux = m; written = []; progress = false; stopped = true }
    else if first.stopped
    then first
    else if second.stopped || second.progress
    then second
    else third
