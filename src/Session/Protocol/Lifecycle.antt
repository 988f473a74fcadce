-- ===== src/Session/Protocol/Lifecycle.antt =====
-- BBgrid_Server/session/server.go: the life of a session whose client has shown a certificate.
use bbgrid.Prelude.{
  ◌≡◌, refl, sym, ap, ◌∙◌, Bool, true, false, ◌||◌, Option, none, some, List, [], ◌∷◌, ◌++◌, Text,
  ℤ, text_key, text_eq_iff, ◌==◌, inl, inr, Bool-cases, All, arith,
}
use mathlib.Core.List.{append_assoc, append-nil}
use bbgrid.GoText.{codes}
use bbgrid.Types.{deleted, Fields, GenericEvent}
use bbgrid.StateStore.{StateStore, get_client}
use bbgrid.StateStore.Apply.{handled_at, string_field, apply, replay}
use bbgrid.StateStore.Clients.{IsOfClient, apply-deleted_client, replay-other_client}
use bbgrid.Session.Messages.{Outgoing, WsMessage, Call, new_client_deleted_event}
use bbgrid.Session.Protocol.{
  Session, Hub, write_json, announce, mismatches, register_fields, handle_register, pong_at,
  handle_pong, handle_message, read_pump, close,
}

-- Between two states of the hub only events of this client were published.
abbrev pub Publishes : Text → Hub → Hub → Type 0
Publishes id h h' =
    (es : List GenericEvent) × (h'.published ≡ h.published ++ es) × All (IsOfClient id) es

-- The session is still that of its certificate.
pub record IsBound (id : Text) (a b : Session × Hub) : Type 0 where
  pub is_temp : b.0.is_temp ≡ false
  pub client_id : b.0.client_id ≡ id
  pub done : b.0.done ≡ a.0.done
  pub events : Publishes id a.1 b.1

All-append : {A : Type 0} (P : A → Type 0) (xs ys : List A) → All P xs → All P ys → All P (xs ++ ys)
All-append P [] ys a b = b
All-append P (x ∷ xs) ys (a, rest) b = (a, All-append P xs ys rest b)

Publishes-trans :
    (id : Text) (h h' h'' : Hub) → Publishes id h h' → Publishes id h' h'' → Publishes id h h''
Publishes-trans id h h' h'' (es, p, a) (fs, q, b) = (
  es ++ fs,
  q ∙ (ap (λ xs. xs ++ fs) p ∙ append_assoc h.published es fs),
  All-append (IsOfClient id) es fs a b,
)

module _ (id : Text) (s : Session) (h : Hub) (t : s.is_temp ≡ false) (own : s.client_id ≡ id) where
  unchanged : IsBound id (s, h) (s, h)
  unchanged = record {
    is_temp = t;
    client_id = own;
    done = refl;
    events = ([], sym (append-nil h.published), tt);
  }

  refused : (m : Outgoing) (taken : Bool) → IsBound id (s, h) (write_json s m taken, h)
  refused m true = record {
    is_temp = t;
    client_id = own;
    done = refl;
    events = ([], sym (append-nil h.published), tt);
  }
  refused m false = unchanged

  announced :
      (k host ns : Text) (c : Call) (taken : Bool)
      → k ≡ id
      → c.taken ≡ taken
      → IsBound id (s, h) (announce (record s { client_id = k; host = host }) h host ns c)
  unfolding announce
  announced k host ns c true own e = rw e (record {
    is_temp = t;
    client_id = own;
    done = refl;
    events = (_ ∷ [], refl, ((refl, own), tt));
  })
  announced k host ns c false own e = rw e (record {
    is_temp = t;
    client_id = own;
    done = refl;
    events = (_ ∷ [], refl, ((refl, own), tt));
  })

  matching : (k : Text) → id == [] ≡ false → mismatches s k ≡ false → k ≡ id
  unfolding mismatches
  matching k n e =
      let same : id == k ≡ true = ground (arith, own) in sym ((text_eq_iff id k).0 same)

  -- A registration under another name is refused.
  registered_fields :
      (client_token : Text) (parse_time : Text → Option ℤ) (fs : Fields) (c : Call)
      → id == [] ≡ false
      → IsBound id (s, h) (register_fields client_token parse_time s h fs c)
  unfolding register_fields
  registered_fields client_token parse_time fs c n =
      let token = string_field fs (codes "token") in
      let name = string_field fs (codes "client_id") in
      elim (Bool-cases (token == [] || name == [])) [
        | inl e ↦ rw e (refused _ c.taken)
        | inr e ↦ rw e (elim (Bool-cases (token == client_token)) [
          | inr f ↦ rw f (refused _ c.taken)
          | inl f ↦ rw f (elim (Bool-cases (mismatches s name)) [
            | inl g ↦ rw g (refused _ c.taken)
            | inr g ↦ rw g (announced name _ _ c c.taken (matching name n g) refl)
          ])
        ])
      ]

  handled_register :
      (client_token : Text) (parse_time : Text → Option ℤ) (d : Option Fields) (c : Call)
      → id == [] ≡ false
      → IsBound id (s, h) (handle_register client_token parse_time s h d c)
  unfolding handle_register
  handled_register client_token parse_time none c n = unchanged
  handled_register client_token parse_time (some fs) c n =
      registered_fields client_token parse_time fs c n

  ponged :
      (client_token : Text) (parse_time : Text → Option ℤ) (at : Option ℤ) (c : Call)
      → IsBound id (s, h) (pong_at client_token parse_time s h at c)
  unfolding pong_at
  ponged client_token parse_time none c = unchanged
  ponged client_token parse_time (some at) c = record {
    is_temp = t;
    client_id = own;
    done = refl;
    events = (_ ∷ [], refl, ((refl, own), tt));
  }

  handled_pong :
      (client_token : Text) (parse_time : Text → Option ℤ) (d : Option Fields) (c : Call)
      → IsBound id (s, h) (handle_pong client_token parse_time s h d c)
  unfolding handle_pong
  handled_pong client_token parse_time none c = unchanged
  handled_pong client_token parse_time (some fs) c = ponged client_token parse_time _ c

abbrev pub is_temporary : WsMessage → Bool
is_temporary m = m.type == codes "temp_register"

module _ (client_token : Text) (parse_time : Text → Option ℤ) (id : Text)
    (n : id == [] ≡ false) where
  message_bound :
      (s : Session) (h : Hub) (m : WsMessage) (c : Call)
      → s.is_temp ≡ false
      → s.client_id ≡ id
      → is_temporary m ≡ false
      → IsBound id (s, h) (handle_message client_token parse_time s h m c)
  unfolding handle_message
  message_bound s h m c t own k = elim (Bool-cases (m.type == codes "register")) [
    | inl e ↦ rw e (handled_register id s h t own client_token parse_time _ c n)
    | inr e ↦
        rw (e, k)
          (elim (Bool-cases (m.type == codes "pong")) [
            | inl g ↦ rw g (handled_pong id s h t own client_token parse_time _ c)
            | inr g ↦ rw g (unchanged id s h t own)
          ])
  ]

  -- A session with a certificate, permanent and with the client of the certificate, keeps this client under
  -- all messages but temp_register, and publishes events of this client only.
  pub read_pump-IsBound :
      (s : Session) (h : Hub) (ms : List (WsMessage × Call))
      → s.is_temp ≡ false
      → s.client_id ≡ id
      → All (λ (m : WsMessage × Call). is_temporary m.0 ≡ false) ms
      → IsBound id (s, h) (read_pump client_token parse_time s h ms)
  unfolding read_pump
  read_pump-IsBound s h [] t own k = unchanged id s h t own
  read_pump-IsBound s h ((m, c) ∷ ms) t own (k, ks) =
      let a = handle_message client_token parse_time s h m c in
      let b = message_bound s h m c t own k in
      let r = read_pump-IsBound a.0 a.1 ms b.is_temp b.client_id ks in
      record {
        is_temp = r.is_temp;
        client_id = r.client_id;
        done = r.done ∙ b.done;
        events =
            Publishes-trans id h a.1 (read_pump client_token parse_time a.0 a.1 ms).1 b.events
              r.events;
      }

-- Of the events between two states of the hub, whenever they are handled and whatever the store holds:
-- this client is offline after them, and the entries of the others are what they were.
abbrev pub TakesOut : Text → Hub → Hub → Type 0
TakesOut id h h' =
    (es : List GenericEvent) × (h'.published ≡ h.published ++ es)
    × ((t : StateStore) (at : GenericEvent → ℤ)
        → (get_client (replay t (handled_at at es)) id ≡ none)
          × ((k : Text)
              → id == k ≡ false
              → get_client (replay t (handled_at at es)) k ≡ get_client t k))

All-handled :
    (id : Text) (at : GenericEvent → ℤ) (es : List GenericEvent)
    → All (IsOfClient id) es
    → All (λ (p : GenericEvent × ℤ). IsOfClient id p.0) (handled_at at es)
All-handled id at [] a = tt
All-handled id at (e ∷ es) (a, rest) = (a, All-handled id at es rest)

-- After a last event that deletes the client it is offline.
last_deleted :
    (t : StateStore) (at : GenericEvent → ℤ) (es : List GenericEvent) (e : GenericEvent) (id : Text)
    → IsOfClient id e
    → e.event_type ≡ deleted
    → get_client (replay t (handled_at at (es ++ e ∷ []))) id ≡ none
unfolding replay
last_deleted t at [] e id own d = apply-deleted_client t e (at e) id own d
last_deleted t at (f ∷ es) e id own d = last_deleted (apply t f (at f)) at es e id own d

-- What an open permanent session with the client of its certificate publishes, over any messages but
-- temp_register and then its Close, takes this client out of every state store that handles it, and
-- leaves the entries of the others.
pub close-TakesOut :
    (client_token : Text) (parse_time : Text → Option ℤ) (id : Text) (s : Session) (h : Hub)
    (ms : List (WsMessage × Call)) (c : Call)
    → id == [] ≡ false
    → s.is_temp ≡ false
    → s.client_id ≡ id
    → s.done ≡ false
    → All (λ (m : WsMessage × Call). is_temporary m.0 ≡ false) ms
    → let r = read_pump client_token parse_time s h ms in TakesOut id h (close r.0 r.1 c).1
unfolding close
close-TakesOut client_token parse_time id s h ms c n t own live k =
    let b = read_pump-IsBound client_token parse_time id n s h ms t own k in
    let (es, p, a) = b.events in
    let e = new_client_deleted_event c id in
    let about = All-append (IsOfClient id) es (e ∷ []) a ((refl, refl), tt) in
    rw (b.done ∙ live, b.client_id, n)
      (
        es ++ e ∷ [],
        ap (λ xs. xs ++ e ∷ []) p ∙ append_assoc h.published es (e ∷ []),
        λ store at. (
          last_deleted store at es e id (refl, refl) refl,
          λ j d.
              replay-other_client store (handled_at at (es ++ e ∷ [])) id j
                (All-handled id at (es ++ e ∷ []) about) d,
        ),
      )
