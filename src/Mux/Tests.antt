-- ===== src/Mux/Tests.antt =====
-- common/mux/mux.go on concrete frames, connections and channels.
use bbgrid.Prelude.{
  ◌≡◌, ◌≤◌, ◌<◌, refl, false, some, List, [], ◌∷◌, ◌++◌, Text, pos, arith, length, take, min,
}
use bbgrid.GoText.{codes}
use bbgrid.Mux.Frame.{
  Conn, FrameIn, ReadError, header_error, build_frame, write_frame, read_loop, pkt_data,
}
use bbgrid.Mux.RoundTrip.{Fits, encode_all, read_loop-encode_all, read_loop_total}
use bbgrid.Mux.Write.{IsWriter, Delivered, write_frame-Delivered}
use bbgrid.Mux.Channel.{Channel, new_channel, read_all, window_size, lacks_window, take_window}
use bbgrid.Mux.Progress.{IsSendless, window_reopens}
use bbgrid.Mux.Flow.{Link, Reach, Conserves, here, next, send, open_link, sum, flow_conserved}
use bbgrid.Mux.Read.{read_all-credit_lost}

abbrev hello : FrameIn
hello = record { port = 7; ptype = 0; payload = codes "hello" }

abbrev bye : FrameIn
bye = record { port = 7; ptype = 2; payload = [] }

hello-Fits : Fits hello
hello-Fits = record { port = omega arith; ptype = omega arith; payload = omega arith }

bye-Fits : Fits bye
bye-Fits = record { port = omega arith; ptype = omega arith; payload = omega arith }

read_loop-encode_all_example :
    read_loop 3 (encode_all (hello ∷ bye ∷ [])) ≡ some (hello ∷ bye ∷ [], header_error)
read_loop-encode_all_example =
    read_loop-encode_all (hello ∷ bye ∷ []) 3 (hello-Fits, (bye-Fits, tt)) (omega arith)

read_loop_total_example :
    (fs : List FrameIn) × (e : ReadError) × (read_loop 4 (1 ∷ 2 ∷ 3 ∷ []) ≡ some (fs, e))
read_loop_total_example = read_loop_total 4 (1 ∷ 2 ∷ 3 ∷ []) (omega arith)

-- A connection that takes two bytes at a time; its world is what it has sent.
abbrev two_by_two : Conn Text
two_by_two = record { write = λ bs w. (min 2 (length bs), false, w ++ take (min 2 (length bs)) bs) }

two_by_two-IsWriter : IsWriter two_by_two (λ w. w)
two_by_two-IsWriter = record {
  count = λ bs w. omega arith;
  progress = λ bs w fine more. nonempty bs more;
  prefix_sent = λ bs w. refl;
}
  where
    nonempty : (bs : Text) → (bs ≡ [] → ⊥) → 0 < min 2 (length bs)
    nonempty [] more = absurd (more refl)
    nonempty (b ∷ bs) more = omega arith

frame_length : length (build_frame 7 0 (codes "hello")) ≤ 13
unfolding build_frame
frame_length = omega arith

write_frame-Delivered_example :
    Delivered
      (λ w. w)
      []
      (build_frame 7 pkt_data (codes "hello"))
      (write_frame two_by_two 13 7 (codes "hello") false [])
write_frame-Delivered_example =
    write_frame-Delivered two_by_two (λ w. w) two_by_two-IsWriter 13 7 (codes "hello") false []
      frame_length

room : lacks_window (new_channel 7 (pos 0)) (pos 100) ≡ false
unfolding lacks_window
room = refl

abbrev start : Link
start = open_link 7 (pos 0) (pos 0)

abbrev after_send : Link
after_send = record start {
  sender = take_window start.sender (pos 100);
  wire = start.wire ++ 100 ∷ [];
}

flow_conserved_example : Conserves after_send × (sum after_send.wire ≤ window_size)
flow_conserved_example =
    flow_conserved 7 (pos 0) (pos 0) after_send (next here (send start 100 room))

abbrev queued : Channel
queued = record (new_channel 7 (pos 0)) { data_chan = codes "hello" ∷ [] }

read_all-credit_lost_example : (read_all queued (2 ∷ 9 ∷ [])).2 ≡ 0
read_all-credit_lost_example =
    read_all-credit_lost queued (codes "hello") 2 (9 ∷ []) refl refl (omega arith)

window_reopens_example :
    (m : Link) × (r : Reach after_send m) × IsSendless r
    × (lacks_window m.sender (pos 65535) ≡ false)
window_reopens_example =
    window_reopens 7 (pos 0) (pos 0) after_send 65535 (next here (send start 100 room))
      (omega arith)
