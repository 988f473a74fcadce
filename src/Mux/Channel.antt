-- ===== src/Mux/Channel.antt =====
-- common/mux/mux.go: one channel of the multiplexer: its send window, its receive queue and `Read`.
use bbgrid.Prelude.{
  ℕ, suc, ◌+◌, ◌-◌, ◌*◌, ◌%◌, ◌^◌, Bool, false, not, ◌||◌, Option, none, some, List, [], ◌∷◌, ◌++◌,
  Text, ℤ, pos, negsuc, ◌+ℤ◌, ◌-ℤ◌, if◌then◌else◌, ltb, ltb_ℤ, length, take, drop, signed,
}
use bbgrid.Mux.Frame.{u32, put_u32}

abbrev pub window_size : ℕ
window_size = 1024 * 1024

abbrev pub send_queue_size : ℕ
send_queue_size = 64

-- the capacity of `DataChan`
abbrev pub data_chan_size : ℕ
data_chan_size = 32

abbrev pub window_threshold : ℕ
window_threshold = 16 * 1024

-- ten milliseconds, in nanoseconds
abbrev pub window_interval : ℕ
window_interval = 10_000_000

pub record FrameOut : Type 0 where
  pub port : ℕ
  pub payload : Text
  -- `none` is the -1 of a frame that carries its data
  pub src_fd : Option ℕ
  pub n : ℕ
  pub ctrl : Bool

-- A Go channel is the list of its entries, oldest first; `closed` says that `CloseChan` is closed.
pub record Channel : Type 0 where
  pub port : ℕ
  pub data_chan : List Text
  pub closed : Bool
  pub send_queue : List FrameOut
  pub send_window : ℤ
  pub pending_consumed : ℤ
  pub last_wu_time : ℤ
  pub reader : Text

abbrev pub new_channel : ℕ → ℤ → Channel
new_channel port now = record {
  port = port;
  data_chan = [];
  closed = false;
  send_queue = [];
  send_window = pos window_size;
  pending_consumed = pos 0;
  last_wu_time = now;
  reader = [];
}

-- `int32(...)` of an integer
unfoldable pub int32 : ℤ → ℤ
int32 (pos n) = signed 31 n
int32 (negsuc n) = signed 31 (2 ^ 32 - suc n % 2 ^ 32)

-- `uint32(...)` of an int32
unfoldable pub uint32 : ℤ → ℕ
uint32 (pos n) = n % 2 ^ 32
uint32 (negsuc n) = (2 ^ 32 - suc n % 2 ^ 32) % 2 ^ 32

-- `atomic.LoadInt32(&ch.sendWindow) < dataLen`
unfoldable pub lacks_window : Channel → ℤ → Bool
lacks_window ch n = ltb_ℤ ch.send_window n

-- `atomic.AddInt32(&ch.sendWindow, -dataLen)`
unfoldable pub take_window : Channel → ℤ → Channel
take_window ch n = record ch { send_window = int32 (ch.send_window -ℤ n) }

-- `handleWindowUpdate` on the channel that it finds; fewer than four bytes are ignored.
unfoldable pub add_window : Channel → Text → Channel
add_window ch (a ∷ b ∷ c ∷ d ∷ rest) = record ch {
  send_window = int32 (ch.send_window +ℤ int32 (pos (u32 a b c d)));
}
add_window ch _ = ch

-- `shouldSend`: sixteen kilobytes are held back, or ten milliseconds have gone by.
unfoldable pub should_send : ℤ → Channel → ℤ → Bool
should_send pending ch now =
    not (ltb_ℤ pending (pos window_threshold))
    || not (ltb_ℤ (now -ℤ ch.last_wu_time) (pos window_interval))

-- `SendWindowUpdate` on the channel that it finds, up to the write: the payload to send, if one is due.
unfoldable pub consume : Channel → ℕ → ℤ → Channel × Option Text
consume ch consumed now =
    let pending = int32 (ch.pending_consumed +ℤ int32 (pos consumed)) in
    if should_send pending ch now
    then (
      record ch { pending_consumed = pos 0; last_wu_time = now },
      some (put_u32 (uint32 pending)),
    )
    else (record ch { pending_consumed = pending }, none)

pub data Received : Type 0 where
  received : Text → Channel → Received
  -- the queue is empty and `CloseChan` is closed
  ended : Received
  waits : Received

unfoldable pub receive_from : List Text → Channel → Received
receive_from [] ch = if ch.closed then ended else waits
receive_from (m ∷ ms) ch = received m (record ch { data_chan = ms })

-- `ReceiveBlocking`: what is queued comes first, also after the close.
unfoldable pub receive_blocking : Channel → Received
unfolding receive_from
receive_blocking ch = receive_from ch.data_chan ch

pub data ReadStep : Type 0 where
  -- the bytes, the channel after it, and the argument of `SendWindowUpdate` if it is called
  got : Text → Channel → Option ℕ → ReadStep
  eof : ReadStep
  blocked : ReadStep

-- The second half of `Read`: a fresh message, cut to the buffer.
unfoldable pub read_message : ℕ → Received → ReadStep
read_message size (received m ch) =
    if ltb size (length m)
    then got (take size m) (record ch { reader = drop size m }) none
    else got m ch (some (length m))
read_message size ended = eof
read_message size waits = blocked

-- The first half of `Read`: the rest of an earlier message comes before a fresh one.
unfoldable pub read_from : Text → Channel → ℕ → ReadStep
unfolding read_message receive_blocking
read_from [] ch size = read_message size (receive_blocking ch)
read_from (b ∷ bs) ch size =
    got (take size (b ∷ bs)) (record ch { reader = drop size (b ∷ bs) }) none

-- `Read(p)` with a buffer of `size` bytes.
unfoldable pub read : Channel → ℕ → ReadStep
unfolding read_from
read ch size = read_from ch.reader ch size

-- The reads of a loop over buffers of the given sizes, with all the bytes that they deliver and all
-- the credit that they ask `SendWindowUpdate` to give back.
abbrev pub credit_of : Option ℕ → ℕ
credit_of none = 0
credit_of (some n) = n

unfoldable pub read_all : Channel → List ℕ → Text × Channel × ℕ
read_all ch [] = ([], ch, 0)
read_all ch (size ∷ sizes) = elim (read ch size) [
  | got bytes ch' credit ↦
      let (more, last, back) = read_all ch' sizes in (bytes ++ more, last, credit_of credit + back)
  | eof ↦ ([], ch, 0)
  | blocked ↦ ([], ch, 0)
]
