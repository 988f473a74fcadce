-- ===== src/Mux/Read.antt =====
-- common/mux/mux.go: what a loop over `Read` delivers, and what it gives back to the sender.
use bbgrid.Prelude.{
  ℕ, ◌≤◌, ◌<◌, ◌≡◌, refl, subst, false, Option, none, List, [], ◌∷◌, ◌++◌, Text, ltb, length, take,
  drop, arith, All, length-append, ◌⊎◌, inl, inr, Bool-cases,
}
use bbgrid.Mux.Channel.{
  Channel, receive_from, receive_blocking, ReadStep, got, eof, blocked, read_message, read_from,
  read, read_all, credit_of,
}

flat : List Text → Text
flat [] = []
flat (m ∷ ms) = m ++ flat ms

-- The bytes that a channel still has for its reader.
pub stream : Channel → Text
unfolding flat
stream ch = ch.reader ++ flat ch.data_chan

-- What one step of `Read` says of the stream before and after it.
abbrev pub Keeps : Text → ReadStep → Type 0
Keeps s (got bytes ch credit) = s ≡ bytes ++ stream ch
Keeps s eof = s ≡ []
Keeps s blocked = s ≡ []

ReadStep-cases :
    (r : ReadStep)
    → ((bytes : Text) × (ch : Channel) × (credit : Option ℕ) × (r ≡ got bytes ch credit))
      ⊎ (r ≡ eof)
      ⊎ (r ≡ blocked)
ReadStep-cases (got bytes ch credit) = inl (bytes, ch, credit, refl)
ReadStep-cases eof = inr (inl refl)
ReadStep-cases blocked = inr (inr refl)

-- What a step of `Read` leaves when no message is queued: the rest of an old one, without credit.
abbrev NoCredit : ReadStep → Type 0
NoCredit (got bytes ch credit) = (credit ≡ none) × (ch.data_chan ≡ [])
NoCredit eof = Unit {0}
NoCredit blocked = Unit {0}

from-NoCredit :
    (ch : Channel) (size : ℕ) (s : Text) → ch.data_chan ≡ [] → NoCredit (read_from s ch size)
unfolding read_from receive_blocking
from-NoCredit ch size (b ∷ bs) h = (refl, h)
from-NoCredit ch size [] h =
    rw h (elim (Bool-cases ch.closed) [ inl e ↦ rw e tt | inr e ↦ rw e tt ])

read-NoCredit : (ch : Channel) (size : ℕ) → ch.data_chan ≡ [] → NoCredit (read ch size)
unfolding read
read-NoCredit ch size h = from-NoCredit ch size ch.reader h

read_all-no_credit : (ch : Channel) (sizes : List ℕ) → ch.data_chan ≡ [] → (read_all ch sizes).2 ≡ 0
unfolding read_all
read_all-no_credit ch [] h = refl
read_all-no_credit ch (size ∷ sizes) h = elim (ReadStep-cases (read ch size)) [
  | inl (bytes, ch', credit, e) ↦
      let none_left = subst NoCredit e (read-NoCredit ch size h) in
      rw (e, read_all, none_left.0) (omega (arith, read_all-no_credit ch' sizes none_left.1))
  | inr (inl e) ↦ rw (e, read_all) refl
  | inr (inr e) ↦ rw (e, read_all) refl
]

read_cut :
    (ch : Channel) (m : Text) (size : ℕ)
    → ch.reader ≡ []
    → ch.data_chan ≡ m ∷ []
    → size < length m
    → read ch size ≡ got (take size m) (record ch { data_chan = []; reader = drop size m }) none
unfolding read read_from receive_blocking read_message
read_cut ch m size r d h = ground arith

-- A message that is first read through a buffer too small for it is never credited: whatever buffers
-- follow, no window of it goes back to the sender.
pub read_all-credit_lost :
    (ch : Channel) (m : Text) (size : ℕ) (sizes : List ℕ)
    → ch.reader ≡ []
    → ch.data_chan ≡ m ∷ []
    → size < length m
    → (read_all ch (size ∷ sizes)).2 ≡ 0
unfolding read_all
read_all-credit_lost ch m size sizes r d h =
    let rest = record ch { data_chan = []; reader = drop size m } in
    rw (read_cut ch m size r d h, read_all) (omega (arith, read_all-no_credit rest sizes refl))

-- Where every buffer holds every message, each read takes one whole message and credits all of it.
abbrev Credited : ℕ → ReadStep → Type 0
Credited b (got bytes ch credit) =
    (credit_of credit ≡ length bytes) × (ch.reader ≡ []) × All (λ m. length m ≤ b) ch.data_chan
Credited b eof = Unit {0}
Credited b blocked = Unit {0}

fresh-Credited :
    (ch : Channel) (b size : ℕ) (queue : List Text)
    → b ≤ size
    → ch.reader ≡ []
    → All (λ m. length m ≤ b) queue
    → Credited b (read_message size (receive_from queue ch))
unfolding read_message receive_from
fresh-Credited ch b size [] h r q = elim (Bool-cases ch.closed) [
  | inl e ↦ rw e tt
  | inr e ↦ rw e tt
]
fresh-Credited ch b size (m ∷ ms) h r q =
    let whole : ltb size (length m) ≡ false = ground (arith, q.0) in rw whole (refl, r, q.1)

from-Credited :
    (ch : Channel) (b size : ℕ) (s : Text)
    → b ≤ size
    → ch.reader ≡ s
    → s ≡ []
    → All (λ m. length m ≤ b) ch.data_chan
    → Credited b (read_from s ch size)
unfolding read_from receive_blocking
from-Credited ch b size [] h r e q = fresh-Credited ch b size ch.data_chan h r q
from-Credited ch b size (x ∷ xs) h r e q = cc e

-- If no queued message is longer than any of the buffers, the reads of a loop give back exactly as
-- many bytes of window as they deliver.
read_all-credit :
    (ch : Channel) (b : ℕ) (sizes : List ℕ)
    → ch.reader ≡ []
    → All (λ m. length m ≤ b) ch.data_chan
    → All (λ size. b ≤ size) sizes
    → (read_all ch sizes).2 ≡ length (read_all ch sizes).0
unfolding read_all
read_all-credit ch b [] r q h = refl
read_all-credit ch b (size ∷ sizes) r q h = elim (ReadStep-cases (read ch size)) [
  | inl (bytes, ch', credit, e) ↦
      let kept =
        subst (Credited b) e (unfold read in from-Credited ch b size ch.reader h.0 refl r q) in
      rw (e, read_all)
        (omega (
          arith,
          kept.0,
          read_all-credit ch' b sizes kept.1 kept.2 h.1,
          length-append bytes (read_all ch' sizes).0,
        ))
  | inr (inl e) ↦ rw (e, read_all) refl
  | inr (inr e) ↦ rw (e, read_all) refl
]
