-- ===== src/Mux/Frame.antt =====
-- common/mux/mux.go: frames, `writeFrame`, `writeCtrl`, `writeWindowUpdate` and `readLoop`.
use bbgrid.Prelude.{
  ℕ, zero, suc, ◌+◌, ◌*◌, ◌/◌, ◌%◌, ◌^◌, Bool, Option, none, some, List, [], ◌∷◌, ◌++◌, Text,
  if◌then◌else◌, ltb, nat_eq, length, take, drop,
}

abbrev pub magic : ℕ
magic = 0xAE01

abbrev pub frame_header_size : ℕ
frame_header_size = 8

abbrev pub max_frame_size : ℕ
max_frame_size = 65535

abbrev pub pkt_data : ℕ
pkt_data = 0

abbrev pub pkt_open : ℕ
pkt_open = 1

abbrev pub pkt_close : ℕ
pkt_close = 2

abbrev pub pkt_window_update : ℕ
pkt_window_update = 3

-- `binary.BigEndian.PutUint16` and `PutUint32`
abbrev pub put_u16 : ℕ → Text
put_u16 v = v / 256 % 256 ∷ v % 256 ∷ []

unfoldable pub put_u32 : ℕ → Text
put_u32 v = v / 2 ^ 24 % 256 ∷ v / 2 ^ 16 % 256 ∷ v / 256 % 256 ∷ v % 256 ∷ []

-- `binary.BigEndian.Uint16` of two bytes of the header, `Uint32` of the first four bytes
abbrev pub u16 : ℕ → ℕ → ℕ
u16 hi lo = hi * 256 + lo

abbrev pub u32 : ℕ → ℕ → ℕ → ℕ → ℕ
u32 a b c d = a * 2 ^ 24 + b * 2 ^ 16 + c * 256 + d

-- The header and the payload in one buffer; the length is cut to 16 bits by `uint16(dataLen)`.
unfoldable pub build_frame : ℕ → ℕ → Text → Text
build_frame port ptype payload =
    put_u16 magic
    ++ (put_u16 port ++ (put_u16 (length payload % 2 ^ 16) ++ (put_u16 ptype ++ payload)))

pub data WriteError : Type 0 where
  too_large closed conn_error : WriteError

pub data Written (W : Type 0) : Type 0 where
  sent : W → Written W
  failed : WriteError → W → Written W

-- net.Conn: a write returns the number of bytes that it took and whether it failed.
pub record Conn (W : Type 0) : Type 0 where
  pub write : Text → W → ℕ × Bool × W

module _ {W : Type 0} (conn : Conn W) where
  -- `for written := 0; written < len(buf); { … }`, on what is left of the buffer
  unfoldable pub write_all : ℕ → Text → W → Option (Written W)
  write_all fuel [] w = some (sent w)
  write_all zero (b ∷ bs) w = none
  write_all (suc fuel) (b ∷ bs) w =
      let (n, err, w') = conn.write (b ∷ bs) w in
      let rest = write_all fuel (drop n (b ∷ bs)) w' in
      if err then some (failed conn_error w') else rest

  unfoldable pub write_frame : ℕ → ℕ → Text → Bool → W → Option (Written W)
  unfolding write_all build_frame
  write_frame fuel port payload ctrl w =
      if ltb max_frame_size (length payload)
      then some (failed too_large w)
      else write_all fuel (build_frame port (if ctrl then pkt_open else pkt_data) payload) w

  unfoldable pub write_ctrl : ℕ → Bool → ℕ → ℕ → W → Option (Written W)
  unfolding write_all build_frame
  write_ctrl fuel is_closed port ptype w =
      if is_closed then some (failed closed w) else write_all fuel (build_frame port ptype []) w

  unfoldable pub write_window_update : ℕ → ℕ → Text → W → Option (Written W)
  unfolding write_all build_frame
  write_window_update fuel port update w =
      write_all fuel (build_frame port pkt_window_update update) w

pub record FrameIn : Type 0 where
  pub port : ℕ
  pub ptype : ℕ
  pub payload : Text

pub data ReadError : Type 0 where
  header_error invalid_magic frame_too_large payload_error : ReadError

pub data ReadResult : Type 0 where
  frame : FrameIn → Text → ReadResult
  stopped : ReadError → ReadResult

-- `io.ReadFull` of the payload, out of the bytes that follow the header
unfoldable pub read_payload : ℕ → ℕ → ℕ → Text → ReadResult
read_payload port len ptype bytes =
    if ltb max_frame_size len
    then stopped frame_too_large
    else if ltb (length bytes) len
    then stopped payload_error
    else frame (record { port = port; ptype = ptype; payload = take len bytes }) (drop len bytes)

-- One round of `readLoop`, on the bytes that are still to come before the connection ends.
unfoldable pub read_frame : Text → ReadResult
unfolding read_payload
read_frame (m1 ∷ m2 ∷ p1 ∷ p2 ∷ l1 ∷ l2 ∷ t1 ∷ t2 ∷ bytes) =
    if nat_eq (u16 m1 m2) magic
    then read_payload (u16 p1 p2) (u16 l1 l2) (u16 t1 t2) bytes
    else stopped invalid_magic
read_frame _ = stopped header_error

-- The rounds of `readLoop`, with one unit of fuel for each; `none` means that it ran out.
unfoldable pub read_loop : ℕ → Text → Option (List FrameIn × ReadError)
read_loop zero bytes = none
read_loop (suc fuel) bytes = elim (read_frame bytes) [
  | stopped e ↦ some ([], e)
  | frame f rest ↦ elim (read_loop fuel rest) [ none ↦ none | some (fs, e) ↦ some (f ∷ fs, e) ]
]
