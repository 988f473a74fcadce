-- ===== src/EventLog/Laws.antt =====
-- common/store/event.go: a log that is opened again holds what was appended to it.
use bbgrid.Prelude.{
  ℕ, ◌≡◌, refl, sym, ap, ◌∙◌, true, false, Option, some, List, [], ◌∷◌, ◌++◌, Text, ℤ, pos, negsuc,
  ◌+ℤ◌, ltb_ℤ, nat_eq, All, arith,
}
use mathlib.Core.List.{append_assoc, append-nil}
use bbgrid.Types.{GenericEvent}
use bbgrid.EventLog.{
  EventStore, newline, stored, stamped, next, write_line, write_marshalled, append, split_from,
  split_lines, load_event, load_lines, load_events,
}

split_from-line :
    (start line rest : Text)
    → All (λ b. nat_eq b newline ≡ false) line
    → split_from start (line ++ newline ∷ rest) ≡ (start ++ line) ∷ split_from [] rest
unfolding split_from
split_from-line start [] rest h = rw (append-nil start) refl
split_from-line start (b ∷ bs) rest h =
    rw h.0
      (split_from-line (start ++ b ∷ []) bs rest h.1 ∙ rw (append_assoc start (b ∷ []) bs) refl)

next_larger : (z : ℤ) → ltb_ℤ z (z +ℤ pos 1) ≡ true
unfolding ◌+ℤ◌
next_larger (pos n) = ground arith
next_larger (negsuc n) = ground arith

module _ (marshal : GenericEvent → Option Text) (unmarshal : Text → Option GenericEvent) where
  -- The encoding of an event is one line, and decodes to the event.
  pub record IsReadable (e : GenericEvent) : Type 0 where
    pub first : ℕ
    pub more : Text
    pub marshals : marshal e ≡ some (first ∷ more)
    pub one_line : All (λ b. nat_eq b newline ≡ false) (first ∷ more)
    pub unmarshals : unmarshal (first ∷ more) ≡ some e

  -- Every append reaches the disk.
  unfoldable pub append_all : EventStore → List (GenericEvent × ℤ) → EventStore
  append_all s [] = s
  append_all s ((e, now) ∷ es) = append_all (append marshal unmarshal s e now stored).0 es

  unfoldable pub AreReadable : EventStore → List (GenericEvent × ℤ) → Type 0
  AreReadable s [] = Unit
  AreReadable s ((e, now) ∷ es) =
      IsReadable (stamped s e now) × AreReadable (append marshal unmarshal s e now stored).0 es

  load_event-stamped :
      (s : EventStore) (e : GenericEvent) (now : ℤ) (file : Text) (line : Text)
      → load_event marshal unmarshal (record s { file = file }) (some (stamped s e now))
        ≡ record (write_line (next s) (stamped s e now) line stored).0 { file = file }
  unfolding load_event write_line
  load_event-stamped s e now file line = rw (next_larger s.sequence) refl

  append_lem :
      (s : EventStore) (e : GenericEvent) (now : ℤ) (line : Text)
      → marshal (stamped s e now) ≡ some line
      → (append marshal unmarshal s e now stored).0
        ≡ (write_line (next s) (stamped s e now) line stored).0
  unfolding append write_marshalled
  append_lem s e now line h = rw h refl

  -- What the appends add to the file, and what a reader makes of it.
  Reloads : EventStore → List (GenericEvent × ℤ) → Type 0
  Reloads s es =
      (w : Text) × ((append_all s es).file ≡ s.file ++ w)
      × ((file : Text)
          → load_lines marshal unmarshal (record s { file = file }) (split_from [] w)
            ≡ record (append_all s es) { file = file })

  appends-Reloads :
      (s : EventStore) (es : List (GenericEvent × ℤ)) → AreReadable s es → Reloads s es
  unfolding append_all load_lines split_from AreReadable Reloads write_line
  appends-Reloads s [] h = ([], sym (append-nil s.file), λ file. refl)
  appends-Reloads s ((e, now) ∷ es) h =
      let r = h.0 in
      let line = r.first ∷ r.more in
      let s' = (append marshal unmarshal s e now stored).0 in
      let step = append_lem s e now line r.marshals in
      let (w, written, loads) = appends-Reloads s' es h.1 in
      let onto : (s.file ++ (line ++ newline ∷ [])) ++ w ≡ s.file ++ (line ++ newline ∷ w) =
        append_assoc s.file (line ++ newline ∷ []) w
        ∙ ap (λ (t : Text). s.file ++ t) (append_assoc line (newline ∷ []) w) in
      (
        line ++ newline ∷ w,
        written ∙ ap (λ (t : EventStore). t.file ++ w) step ∙ onto,
        λ file.
            ap (λ (ls : List Text). load_lines marshal unmarshal (record s { file = file }) ls)
              (split_from-line [] line w r.one_line)
            ∙ ap
                (λ (o : Option GenericEvent).
                  load_lines marshal unmarshal
                    (load_event marshal unmarshal (record s { file = file }) o) (split_from [] w))
                r.unmarshals
            ∙ ap (λ (t : EventStore). load_lines marshal unmarshal t (split_from [] w))
                (load_event-stamped s e now file line
                  ∙ ap (λ (t : EventStore). record t { file = file }) (sym step))
            ∙ loads file,
      )

  -- A log to which events were appended, each on the disk and each readable as one line, is the same
  -- log again after the file was read: the same events in their order and the same last number.
  pub load_events-append_all :
      (es : List (GenericEvent × ℤ))
      → AreReadable (record { file = []; events = []; sequence = pos 0 }) es
      → load_events marshal unmarshal
          (append_all (record { file = []; events = []; sequence = pos 0 }) es).file
        ≡ append_all (record { file = []; events = []; sequence = pos 0 }) es
  unfolding load_events split_lines Reloads
  load_events-append_all es h =
      let s = append_all (record { file = []; events = []; sequence = pos 0 }) es in
      let (w, written, loads) =
        appends-Reloads (record { file = []; events = []; sequence = pos 0 }) es h in
      ap
        (λ (t : Text).
          load_lines marshal unmarshal (record { file = s.file; events = []; sequence = pos 0 })
            (split_from [] t))
        written
      ∙ loads s.file
