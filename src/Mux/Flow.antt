-- ===== src/Mux/Flow.antt =====
-- common/mux/mux.go: the flow control of one direction of a channel, over both ends and the wire
-- between them, when each message is consumed whole.
use bbgrid.Prelude.{
  ℕ, ◌+◌, ◌-◌, ◌/◌, ◌%◌, ◌^◌, ◌≤◌, ◌<◌, ◌≡◌, refl, sym, ap, ◌∙◌, false, Option, none, some, List,
  [], ◌∷◌, ◌++◌, map, Text, ℤ, pos, ◌+ℤ◌, ◌-ℤ◌, arith, ◌⊎◌, inl, inr, signed, Bool-cases,
}
use bbgrid.Mux.Frame.{u32, put_u32}
use bbgrid.Mux.Channel.{
  Channel, new_channel, int32, uint32, should_send, lacks_window, take_window, add_window, consume,
  window_size,
}

pub int32_small : (n : ℕ) → n < 2 ^ 31 → int32 (pos n) ≡ pos n
unfolding int32 signed
int32_small n h = ground arith

minus_small : (a b : ℕ) → b ≤ a → pos a -ℤ pos b ≡ pos (a - b)
unfolding ◌-ℤ◌
minus_small a b h = ground arith

pub plus_small : (a b : ℕ) → pos a +ℤ pos b ≡ pos (a + b)
unfolding ◌+ℤ◌
plus_small a b = ground arith

take_window_lem :
    (ch : Channel) (w n : ℕ)
    → ch.send_window ≡ pos w
    → n ≤ w
    → w < 2 ^ 31
    → (take_window ch (pos n)).send_window ≡ pos (w - n)
unfolding take_window
take_window_lem ch w n e h l = rw (e, minus_small w n h) (int32_small (w - n) (omega arith))

u32-put_u32 :
    (c : ℕ) → c < 2 ^ 32 → u32 (c / 2 ^ 24 % 256) (c / 2 ^ 16 % 256) (c / 256 % 256) (c % 256) ≡ c
u32-put_u32 c h = omega arith

add_window_lem :
    (ch : Channel) (w c : ℕ)
    → ch.send_window ≡ pos w
    → w + c < 2 ^ 31
    → (add_window ch (put_u32 c)).send_window ≡ pos (w + c)
unfolding add_window put_u32
add_window_lem ch w c e h =
    rw (u32-put_u32 c (omega arith), int32_small c (omega arith), e, plus_small w c)
      (int32_small (w + c) h)

uint32_small : (n : ℕ) → n < 2 ^ 32 → uint32 (pos n) ≡ n
unfolding uint32
uint32_small n h = omega arith

-- What is consumed is held back or announced, with all that was held back before.
pub consume_lem :
    (ch : Channel) (p n : ℕ) (now : ℤ)
    → ch.pending_consumed ≡ pos p
    → p + n < 2 ^ 31
    → (((consume ch n now).0.pending_consumed ≡ pos 0)
        × ((consume ch n now).1 ≡ some (put_u32 (p + n))))
      ⊎ (((consume ch n now).0.pending_consumed ≡ pos (p + n)) × ((consume ch n now).1 ≡ none))
unfolding consume
consume_lem ch p n now e h =
    let sum : int32 (ch.pending_consumed +ℤ int32 (pos n)) ≡ pos (p + n) =
      rw (int32_small n (omega arith), e, plus_small p n) (int32_small (p + n) h) in
    elim (Bool-cases (should_send (pos (p + n)) ch now)) [
      | inl due ↦
          inl
            (rw (sum, due) (refl, ap (λ u. some (put_u32 u)) (uint32_small (p + n) (omega arith))))
      | inr held ↦ inr (rw (sum, held) (refl, refl))
    ]

unfoldable pub sum : List ℕ → ℕ
sum [] = 0
sum (n ∷ ns) = n + sum ns

sum-append : (ns : List ℕ) (n : ℕ) → sum (ns ++ n ∷ []) ≡ sum ns + n
unfolding sum
sum-append [] n = omega arith
sum-append (m ∷ ns) n = omega (arith, sum-append ns n)

-- The sender's channel, the sizes of the messages that are on the way to the reader or wait for it,
-- the receiver's channel, and the WINDOW_UPDATE payloads on the way back.
pub record Link : Type 0 where
  pub sender : Channel
  pub wire : List ℕ
  pub receiver : Channel
  pub updates : List Text

abbrev pub after_consume : Link → List ℕ → Channel × Option Text → Link
after_consume l rest (ch, none) = record l { wire = rest; receiver = ch }
after_consume l rest (ch, some u) = record l {
  wire = rest;
  receiver = ch;
  updates = l.updates ++ u ∷ [];
}

-- One sender passes the window test and takes the window, the reader takes a whole message, or an
-- update arrives.
pub data Step : Link → Link → Type 0 where
  send :
      (l : Link) (n : ℕ)
      → lacks_window l.sender (pos n) ≡ false
      → Step l (record l { sender = take_window l.sender (pos n); wire = l.wire ++ n ∷ [] })
  read_whole :
      (l : Link) (n : ℕ) (rest : List ℕ) (now : ℤ)
      → l.wire ≡ n ∷ rest
      → Step l (after_consume l rest (consume l.receiver n now))
  update :
      (l : Link) (u : Text) (rest : List Text)
      → l.updates ≡ u ∷ rest
      → Step l (record l { sender = add_window l.sender u; updates = rest })

pub data Reach (l : Link) : Link → Type 0 where
  here : Reach l l
  next : {m k : Link} → Reach l m → Step m k → Reach l k

-- Nothing is lost: the window, the messages on the way, what is held back and what is announced add
-- up to the full window.
pub record Conserves (l : Link) : Type 0 where
  pub window : ℕ
  pub held : ℕ
  pub announced : List ℕ
  pub at_sender : l.sender.send_window ≡ pos window
  pub at_receiver : l.receiver.pending_consumed ≡ pos held
  pub in_updates : l.updates ≡ map put_u32 announced
  pub total : window + sum l.wire + held + sum announced ≡ window_size

has_window :
    (ch : Channel) (w n : ℕ) → ch.send_window ≡ pos w → lacks_window ch (pos n) ≡ false → n ≤ w
unfolding lacks_window
has_window ch w n e h = ground arith

send-Conserves :
    (l : Link) (n : ℕ)
    → lacks_window l.sender (pos n) ≡ false
    → Conserves l
    → Conserves (record l { sender = take_window l.sender (pos n); wire = l.wire ++ n ∷ [] })
send-Conserves l n room c =
    let fits : n ≤ c.window = has_window l.sender c.window n c.at_sender room in
    record {
      window = c.window - n;
      held = c.held;
      announced = c.announced;
      at_sender = take_window_lem l.sender c.window n c.at_sender fits (omega (arith, c.total));
      at_receiver = c.at_receiver;
      in_updates = c.in_updates;
      total = omega (arith, sum-append l.wire n, c.total);
    }

map-append-one :
    (ns : List ℕ) (n : ℕ) → map put_u32 (ns ++ n ∷ []) ≡ map put_u32 ns ++ put_u32 n ∷ []
map-append-one [] n = refl
map-append-one (m ∷ ns) n = ap (◌∷◌ (put_u32 m)) (map-append-one ns n)

read-Conserves :
    (l : Link) (n : ℕ) (rest : List ℕ) (r : Channel × Option Text) (c : Conserves l)
    → l.wire ≡ n ∷ rest
    → ((r.0.pending_consumed ≡ pos 0) × (r.1 ≡ some (put_u32 (c.held + n))))
      ⊎ ((r.0.pending_consumed ≡ pos (c.held + n)) × (r.1 ≡ none))
    → Conserves (after_consume l rest r)
unfolding sum
read-Conserves l n rest (ch, none) c e (inl h) = cc (h.1)
read-Conserves l n rest (ch, some u) c e (inr h) = cc (h.1)
read-Conserves l n rest (ch, none) c e (inr h) = record {
  window = c.window;
  held = c.held + n;
  announced = c.announced;
  at_sender = c.at_sender;
  at_receiver = h.0;
  in_updates = c.in_updates;
  total = omega (arith, c.total, ap sum e);
}
read-Conserves l n rest (ch, some u) c e (inl h) = record {
  window = c.window;
  held = 0;
  announced = c.announced ++ (c.held + n) ∷ [];
  at_sender = c.at_sender;
  at_receiver = h.0;
  in_updates =
      rw (c.in_updates, map-append-one c.announced (c.held + n))
        (ap (λ v. map put_u32 c.announced ++ v ∷ []) (ground (arith, h.1)));
  total = omega (arith, c.total, ap sum e, sum-append c.announced (c.held + n));
}

pub wire_size : (ns : List ℕ) (n : ℕ) (rest : List ℕ) → ns ≡ n ∷ rest → n ≤ sum ns
unfolding sum
wire_size ns n rest e = omega (arith, ap sum e)

update-Conserves :
    (l : Link) (u : Text) (rest : List Text) (c : Conserves l) (announced : List ℕ)
    → l.updates ≡ u ∷ rest
    → c.announced ≡ announced
    → Conserves (record l { sender = add_window l.sender u; updates = rest })
unfolding sum
update-Conserves l u rest c [] e a =
    let empty : u ∷ rest ≡ [] = sym e ∙ c.in_updates ∙ ap (map put_u32) a in cc empty
update-Conserves l u rest c (k ∷ ks) e a =
    let same : u ∷ rest ≡ put_u32 k ∷ map put_u32 ks = sym e ∙ c.in_updates ∙ ap (map put_u32) a in
    let first : u ≡ put_u32 k = cc same in
    record {
      window = c.window + k;
      held = c.held;
      announced = ks;
      at_sender =
          ap (λ v. (add_window l.sender v).send_window) first
          ∙ add_window_lem l.sender c.window k c.at_sender (omega (arith, c.total, ap sum a));
      at_receiver = c.at_receiver;
      in_updates = cc same;
      total = omega (arith, c.total, ap sum a);
    }

Step-Conserves : {l m : Link} → Step l m → Conserves l → Conserves m
Step-Conserves (send l n room) c = send-Conserves l n room c
Step-Conserves (read_whole l n rest now e) c =
    read-Conserves l n rest (consume l.receiver n now) c e (
      consume_lem l.receiver c.held n now c.at_receiver
        (omega (arith, c.total, wire_size l.wire n rest e)))
Step-Conserves (update l u rest e) c = update-Conserves l u rest c c.announced e refl

-- Both ends have just opened the channel.
abbrev pub open_link : ℕ → ℤ → ℤ → Link
open_link port here' there = record {
  sender = new_channel port here';
  wire = [];
  receiver = new_channel port there;
  updates = [];
}

pub open_link-Conserves : (port : ℕ) (t u : ℤ) → Conserves (open_link port t u)
unfolding sum
open_link-Conserves port t u = record {
  window = window_size;
  held = 0;
  announced = [];
  at_sender = refl;
  at_receiver = refl;
  in_updates = refl;
  total = refl;
}

pub Reach-Conserves : {l m : Link} → Conserves l → Reach l m → Conserves m
Reach-Conserves c here = c
Reach-Conserves c (next r st) = Step-Conserves st (Reach-Conserves c r)

-- In every order of sends, whole reads and updates, the send window, the bytes on the way, the bytes
-- that the receiver holds back and those that it has announced add up to the megabyte of the start. So
-- the window never wraps, and no more than a megabyte is ever on the way.
pub flow_conserved :
    (port : ℕ) (t u : ℤ) (l : Link)
    → Reach (open_link port t u) l
    → Conserves l × (sum l.wire ≤ window_size)
flow_conserved port t u l r =
    let c = Reach-Conserves (open_link-Conserves port t u) r in (c, omega (arith, c.total))
