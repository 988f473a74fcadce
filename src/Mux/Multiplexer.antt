-- ===== src/Mux/Multiplexer.antt =====
-- common/mux/mux.go: the multiplexer's table of channels and the operations on it. A step that would
-- wait leaves the state as it is and says so; the caller's loop tries again. A channel stays in `gone`
-- once it is out of the table, since its readers and writers still hold it.
use bbgrid.Prelude.{
  ℕ, Bool, true, false, Option, none, some, List, [], ◌∷◌, ◌++◌, Text, ℤ, pos, nat_key,
  if◌then◌else◌, ltb, length, nat_eq,
}
use bbgrid.GoMap.{GoMap, get, put, delete}
use bbgrid.Mux.Frame.{FrameIn, pkt_data, pkt_close, pkt_window_update}
use bbgrid.Mux.Channel.{
  Channel, FrameOut, new_channel, data_chan_size, send_queue_size, int32, lacks_window, take_window,
  add_window, consume,
}

pub record CtrlFrame : Type 0 where
  pub port : ℕ
  pub ptype : ℕ

-- const ctrlQueueSize
abbrev pub ctrl_queue_size : ℕ
ctrl_queue_size = 32

pub record Multiplexer : Type 0 where
  pub channels : GoMap ℕ Channel
  pub gone : List Channel
  pub ctrl_chan : List CtrlFrame
  pub closed : Bool
  -- whether `OnNewChannel` is set
  pub on_new_channel : Bool

-- `New`
abbrev pub new_multiplexer : Multiplexer
new_multiplexer = record {
  channels = [];
  gone = [];
  ctrl_chan = [];
  closed = false;
  on_new_channel = false;
}

pub data MuxError : Type 0 where
  multiplexer_closed channel_closed channel_not_found : MuxError

-- How a step ends: done, refused, or to be tried again after a wait.
pub data Outcome (A : Type 0) : Type 0 where
  ok : A → Outcome A
  refused : MuxError → Outcome A
  retry : Outcome A

abbrev pub put_channel : Multiplexer → Channel → Multiplexer
put_channel m ch = record m { channels = put m.channels ch.port ch }

-- `enqueueFrame` of a frame for its port. The code has the channel itself: once this has left the table,
-- `CloseChan` is closed, while its queue may still take the frame. The `select` may take any of its
-- cases that is ready: here the frame of a channel that has left the table is refused, and while the
-- multiplexer is closed a queue with room takes the frame.
unfoldable pub enqueue_found : Multiplexer → FrameOut → Option Channel → Multiplexer × Outcome Unit
enqueue_found m f none = (m, refused channel_closed)
enqueue_found m f (some ch) =
    if ltb (length ch.send_queue) send_queue_size
    then (put_channel m (record ch { send_queue = ch.send_queue ++ f ∷ [] }), ok tt)
    else if ch.closed
    then (m, refused channel_closed)
    else if m.closed
    then (m, refused multiplexer_closed)
    else (m, retry)

unfoldable pub enqueue_frame : Multiplexer → FrameOut → Multiplexer × Outcome Unit
unfolding enqueue_found
enqueue_frame m f = enqueue_found m f (get m.channels f.port)

-- The frame that `Send` makes.
abbrev pub data_frame : ℕ → Text → FrameOut
data_frame port payload = record {
  port = port;
  payload = payload;
  src_fd = none;
  n = 0;
  ctrl = false;
}

-- `Send` up to `enqueueFrame`, which follows as a step of its own with the frame that is returned: the
-- window is taken before there is room for the frame.
unfoldable pub send_on : Multiplexer → ℕ → Text → Option Channel → Multiplexer × Outcome FrameOut
send_on m port payload none = (m, refused channel_not_found)
send_on m port payload (some ch) =
    let len = int32 (pos (length payload)) in
    if lacks_window ch len
    then if ch.closed
      then (m, refused channel_closed)
      else if m.closed
      then (m, refused multiplexer_closed)
      else (m, retry)
    else (put_channel m (take_window ch len), ok (data_frame port payload))

unfoldable pub send : Multiplexer → ℕ → Text → Multiplexer × Outcome FrameOut
unfolding send_on
send m port payload =
    if m.closed
    then (m, refused multiplexer_closed)
    else send_on m port payload (get m.channels port)

-- `enqueueCtrl`; on a full queue it waits.
unfoldable pub enqueue_ctrl : Multiplexer → ℕ → ℕ → Multiplexer × Outcome Unit
enqueue_ctrl m port ptype =
    if m.closed
    then (m, ok tt)
    else if ltb (length m.ctrl_chan) ctrl_queue_size
    then (record m { ctrl_chan = m.ctrl_chan ++ record { port = port; ptype = ptype } ∷ [] }, ok tt)
    else (m, retry)

-- `OpenChannel`: the channel, and whether a goroutine is started that enqueues the OPEN frame.
unfoldable pub open_found :
    Multiplexer → ℕ → ℤ → Option Channel → Multiplexer × Outcome (Channel × Bool)
open_found m port now (some ch) = (m, ok (ch, false))
open_found m port now none = (put_channel m (new_channel port now), ok (new_channel port now, true))

unfoldable pub open_channel : Multiplexer → ℕ → ℤ → Multiplexer × Outcome (Channel × Bool)
unfolding open_found
open_channel m port now =
    if m.closed
    then (m, refused multiplexer_closed)
    else open_found m port now (get m.channels port)

-- `CloseChannel` only enqueues a CLOSE frame.
unfoldable pub close_channel : Multiplexer → ℕ → Multiplexer × Outcome Unit
unfolding enqueue_ctrl
close_channel m port = if m.closed then (m, ok tt) else enqueue_ctrl m port pkt_close

-- `closeChannelLocal`: what is still in the send queue is taken out and dropped.
unfoldable pub close_found : Multiplexer → ℕ → Option Channel → Multiplexer
close_found m port none = m
close_found m port (some ch) = record m {
  channels = delete m.channels port;
  gone = record ch { send_queue = []; closed = true } ∷ m.gone;
}

unfoldable pub close_channel_local : Multiplexer → ℕ → Multiplexer
unfolding close_found
close_channel_local m port = close_found m port (get m.channels port)

-- The `select` over `DataChan` and `closeChan`.
unfoldable pub deliver : Multiplexer → Channel → Text → Multiplexer × Outcome Unit
deliver m ch payload =
    if ltb (length ch.data_chan) data_chan_size
    then (put_channel m (record ch { data_chan = ch.data_chan ++ payload ∷ [] }), ok tt)
    else if m.closed
    then (m, ok tt)
    else (m, retry)

unfoldable pub dispatch_found :
    Multiplexer → ℕ → Text → ℤ → Option Channel → Multiplexer × Outcome Unit
unfolding deliver
dispatch_found m port payload now (some ch) = deliver m ch payload
dispatch_found m port payload now none =
    if m.on_new_channel
    then deliver (put_channel m (new_channel port now)) (new_channel port now) payload
    else (m, ok tt)

unfoldable pub dispatch_data : Multiplexer → ℕ → Text → ℤ → Multiplexer × Outcome Unit
unfolding dispatch_found
dispatch_data m port payload now = dispatch_found m port payload now (get m.channels port)

unfoldable pub window_found : Multiplexer → Text → Option Channel → Multiplexer
window_found m payload none = m
window_found m payload (some ch) = put_channel m (add_window ch payload)

unfoldable pub handle_window_update : Multiplexer → ℕ → Text → Multiplexer
unfolding window_found
handle_window_update m port payload = window_found m payload (get m.channels port)

unfoldable pub dispatch : Multiplexer → FrameIn → ℤ → Multiplexer × Outcome Unit
unfolding dispatch_data close_channel_local handle_window_update
dispatch m f now =
    if nat_eq f.ptype pkt_data
    then dispatch_data m f.port f.payload now
    else if nat_eq f.ptype pkt_close
    then (close_channel_local m f.port, ok tt)
    else if nat_eq f.ptype pkt_window_update
    then (handle_window_update m f.port f.payload, ok tt)
    else (m, ok tt)

-- `SendWindowUpdate`, up to the write of the update that it returns.
unfoldable pub update_found :
    Multiplexer → ℕ → ℤ → Option Channel → Multiplexer × Outcome (Option Text)
update_found m consumed now none = (m, ok none)
update_found m consumed now (some ch) =
    let (ch', update) = consume ch consumed now in (put_channel m ch', ok update)

unfoldable pub send_window_update : Multiplexer → ℕ → ℕ → ℤ → Multiplexer × Outcome (Option Text)
unfolding update_found
send_window_update m port consumed now =
    if m.closed
    then (m, refused multiplexer_closed)
    else update_found m consumed now (get m.channels port)

-- `Close`; a second call does nothing.
unfoldable pub close : Multiplexer → Multiplexer
close m = record m { closed = true }
