-- ===== src/Mux/TableTests.antt =====
-- A round of `writeLoop` on concrete channels.
use bbgrid.Prelude.{true, [], ◌∷◌, pos, nat_key}
use bbgrid.Mux.Frame.{pkt_close}
use bbgrid.Mux.Multiplexer.{Multiplexer, new_multiplexer, data_frame}
use bbgrid.Mux.Channel.{new_channel}
use bbgrid.Mux.WriteLoop.{Wire}

-- A connection that takes every frame.
abbrev open_wire : Wire
open_wire = record { takes = λ f. true; spliced = λ fd n. [] }

abbrev busy : Multiplexer
busy = record new_multiplexer {
  channels =
      (
        80,
        record (new_channel 80 (pos 0)) {
          send_queue = data_frame 80 (1 ∷ []) ∷ data_frame 80 (2 ∷ []) ∷ [];
        },
      )
      ∷ (443, record (new_channel 443 (pos 0)) { send_queue = data_frame 443 (3 ∷ []) ∷ [] })
      ∷ [];
  ctrl_chan = record { port = 443; ptype = pkt_close } ∷ [];
}
