-- ===== src/Mux/RoundTrip.antt =====
-- common/mux/mux.go: what one end writes, the other end reads back, frame by frame.
use bbgrid.Prelude.{
  ℕ, zero, suc, ◌+◌, ◌/◌, ◌%◌, ◌^◌, ◌≤◌, ◌<◌, ◌≡◌, refl, some, List, [], ◌∷◌, ◌++◌, Text, length,
  arith, All, length-append, take-append, drop-append, inl, inr, ◌⊎◌, length-drop,
}
use bbgrid.Mux.Frame.{
  u16, build_frame, FrameIn, ReadError, header_error, ReadResult, frame, stopped, read_payload,
  read_frame, read_loop, max_frame_size,
}

u16-put_u16 : (v : ℕ) → v < 65536 → u16 (v / 256 % 256) (v % 256) ≡ v
u16-put_u16 v h = omega arith

pub record Fits (f : FrameIn) : Type 0 where
  pub port : f.port < 65536
  pub ptype : f.ptype < 65536
  pub payload : length f.payload ≤ max_frame_size

read_payload-append :
    (port ptype : ℕ) (payload rest : Text)
    → length payload ≤ max_frame_size
    → read_payload port (length payload) ptype (payload ++ rest)
      ≡ frame (record { port = port; ptype = ptype; payload = payload }) rest
unfolding read_payload
read_payload-append port ptype payload rest h =
    ground (arith, length-append payload rest, take-append payload rest, drop-append payload rest)

abbrev pub encode : FrameIn → Text
encode f = build_frame f.port f.ptype f.payload

-- A frame whose port and type have 16 bits and whose payload is at most 65535 bytes long is read back
-- as it was written, with the bytes after it left over.
pub read_frame-build_frame :
    (f : FrameIn) (rest : Text) → Fits f → read_frame (encode f ++ rest) ≡ frame f rest
unfolding read_frame build_frame
read_frame-build_frame f rest h =
    let len : u16 (length f.payload % 2 ^ 16 / 256 % 256) (length f.payload % 2 ^ 16 % 256)
        ≡ length f.payload =
      omega arith in
    rw (u16-put_u16 f.port h.port, u16-put_u16 f.ptype h.ptype, len)
      (read_payload-append f.port f.ptype f.payload rest h.payload)

-- The bytes of several frames, one after the other.
abbrev pub encode_all : List FrameIn → Text
encode_all [] = []
encode_all (f ∷ fs) = encode f ++ encode_all fs

-- A stream of frames is read back as these frames in their order, and the loop ends at the end of the
-- stream; as many rounds as there are frames and one more suffice.
pub read_loop-encode_all :
    (fs : List FrameIn) (fuel : ℕ)
    → All Fits fs
    → length fs < fuel
    → read_loop fuel (encode_all fs) ≡ some (fs, header_error)
unfolding read_loop
read_loop-encode_all fs zero h l = absurd (omega arith)
read_loop-encode_all [] (suc fuel) h l = unfold read_frame in refl
read_loop-encode_all (f ∷ fs) (suc fuel) h l =
    rw (read_frame-build_frame f (encode_all fs) h.0, read_loop)
      (rw (read_loop-encode_all fs fuel h.1 (omega arith)) refl)

-- Each round takes the eight bytes of a header at least.
read_frame_rest :
    (bytes rest : Text) (f : FrameIn)
    → read_frame bytes ≡ frame f rest
    → length rest + 8 ≤ length bytes
unfolding read_frame
read_frame_rest (m1 ∷ m2 ∷ p1 ∷ p2 ∷ l1 ∷ l2 ∷ t1 ∷ t2 ∷ bytes) rest f h =
    ground (arith, length-drop (u16 l1 l2) bytes)
read_frame_rest _ rest f h = cc

ReadResult-cases :
    (r : ReadResult)
    → ((e : ReadError) × (r ≡ stopped e)) ⊎ ((f : FrameIn) × (rest : Text) × (r ≡ frame f rest))
ReadResult-cases (stopped e) = inl (e, refl)
ReadResult-cases (frame f rest) = inr (f, rest, refl)

-- The loop ends on every input: on `n` bytes it takes `n` rounds at most, besides the last.
pub read_loop_total :
    (fuel : ℕ) (bytes : Text)
    → length bytes < fuel
    → (fs : List FrameIn) × (e : ReadError) × (read_loop fuel bytes ≡ some (fs, e))
unfolding read_loop
read_loop_total zero bytes h = absurd (omega arith)
read_loop_total (suc fuel) bytes h = elim (ReadResult-cases (read_frame bytes)) [
  | inl (e, stop) ↦ ([], e, rw (stop, read_loop))
  | inr (f, rest, more) ↦
      let (fs, e, loop) =
        read_loop_total fuel rest (omega (arith, read_frame_rest bytes rest f more)) in
      (f ∷ fs, e, rw (more, read_loop) (rw loop refl))
]
