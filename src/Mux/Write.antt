-- ===== src/Mux/Write.antt =====
-- common/mux/mux.go: the write loops against the contract of net.Conn.
use bbgrid.Prelude.{
  ℕ, zero, suc, ◌+◌, ◌≤◌, ◌<◌, ◌≡◌, ◌≢◌, refl, sym, ◌∙◌, Bool, false, Option, none, some, [], ◌∷◌,
  ◌++◌, Text, if◌then◌else◌, ltb, length, take, drop, arith, length-drop, take-append-drop,
  Bool-cases, inl, inr,
}
use mathlib.Core.List.{append_assoc, append-nil}
use bbgrid.Mux.Frame.{
  Conn, Written, sent, failed, too_large, write_all, write_frame, build_frame, max_frame_size,
  pkt_data, pkt_open,
}

-- io.Writer: a write that does not fail takes at least one byte of a buffer that holds one, and what
-- the peer gets is a prefix of the buffer, as long as the count says.
pub record IsWriter {W : Type 0} (conn : Conn W) (out : W → Text) : Type 0 where
  pub count : (bs : Text) (w : W) → (conn.write bs w).0 ≤ length bs
  pub progress :
      (bs : Text) (w : W) → (conn.write bs w).1 ≡ false → bs ≢ [] → 0 < (conn.write bs w).0
  pub prefix_sent :
      (bs : Text) (w : W) → out (conn.write bs w).2 ≡ out w ++ take (conn.write bs w).0 bs

-- A write loop that ends well has sent the whole buffer; one that fails has sent a prefix of it.
abbrev pub Delivered : {W : Type 0} → (W → Text) → W → Text → Option (Written W) → Type 0
Delivered out w buf none = ⊥
Delivered out w buf (some (sent w')) = out w' ≡ out w ++ buf
Delivered out w buf (some (failed e w')) = (n : ℕ) × (out w' ≡ out w ++ take n buf)

take-add : (n m : ℕ) (xs : Text) → take n xs ++ take m (drop n xs) ≡ take (n + m) xs
take-add zero m xs = let e : zero + m ≡ m = omega arith in rw e refl
take-add (suc n) zero [] = let e : suc n + 0 ≡ suc n = omega arith in rw e refl
take-add (suc n) (suc m) [] = let e : suc n + suc m ≡ suc (n + suc m) = omega arith in rw e refl
take-add (suc n) m (x ∷ xs) =
    let e : suc n + m ≡ suc (n + m) = omega arith in rw (e, take-add n m xs) refl

-- What is delivered after a first part is delivered as a whole.
Delivered-after :
    {W : Type 0} (out : W → Text) (w w' : W) (n : ℕ) (buf : Text) (r : Option (Written W))
    → out w' ≡ out w ++ take n buf
    → Delivered out w' (drop n buf) r
    → Delivered out w buf r
Delivered-after out w w' n buf none p h = h
Delivered-after out w w' n buf (some (sent v)) p h =
    h ∙ rw (p, append_assoc, take-append-drop n buf) refl
Delivered-after out w w' n buf (some (failed e v)) p (m, h) =
    (n + m, h ∙ rw (p, append_assoc, take-add n m buf) refl)

module _ {W : Type 0} (conn : Conn W) (out : W → Text) (writer : IsWriter conn out) where
  -- With as many rounds as bytes the loop ends.
  pub write_all-Delivered :
      (fuel : ℕ) (buf : Text) (w : W)
      → length buf ≤ fuel
      → Delivered out w buf (write_all conn fuel buf w)
  unfolding write_all
  write_all-Delivered zero [] w h = sym (append-nil (out w))
  write_all-Delivered (suc fuel) [] w h = sym (append-nil (out w))
  write_all-Delivered zero (b ∷ bs) w h = absurd (omega arith)
  write_all-Delivered (suc fuel) (b ∷ bs) w h =
      let buf = b ∷ bs in
      let n = (conn.write buf w).0 in
      let w' = (conn.write buf w).2 in
      elim (Bool-cases (conn.write buf w).1) [
        | inl broken ↦ rw broken (n, writer.prefix_sent buf w)
        | inr fine ↦
            let some_left : 0 < n = writer.progress buf w fine (λ e. cc) in
            rw fine (
              Delivered-after out w w' n buf (write_all conn fuel (drop n buf) w')
                (writer.prefix_sent buf w)
                (write_all-Delivered fuel (drop n buf) w' (omega (arith, length-drop n buf))))
      ]

  -- `writeFrame` refuses a payload of more than 65535 bytes and writes nothing of it; any other it
  -- sends as one whole frame, or fails after a prefix of the frame. It always ends.
  pub write_frame-Delivered :
      (fuel port : ℕ) (payload : Text) (ctrl : Bool) (w : W)
      → length (build_frame port (if ctrl then pkt_open else pkt_data) payload) ≤ fuel
      → (if ltb max_frame_size (length payload)
          then write_frame conn fuel port payload ctrl w ≡ some (failed too_large w)
          else Delivered out w
              (build_frame port (if ctrl then pkt_open else pkt_data) payload)
              (write_frame conn fuel port payload ctrl w))
  unfolding write_frame
  write_frame-Delivered fuel port payload ctrl w h =
      let buf = build_frame port (if ctrl then pkt_open else pkt_data) payload in
      elim (Bool-cases (ltb max_frame_size (length payload))) [
        | inl large ↦ rw large refl
        | inr fits ↦ rw fits (write_all-Delivered fuel buf w h)
      ]
