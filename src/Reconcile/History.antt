-- ===== src/Reconcile/History.antt =====
-- BBgrid_Server/runtime/reconcile.go: what GetHistory and GetLastResult show after a run.
use bbgrid.Prelude.{
  ℕ, zero, suc, ◌+◌, ◌-◌, ◌≤◌, ◌≡◌, refl, sym, ap, subst, ◌∙◌, true, false, Option, none, some,
  List, [], ◌∷◌, ◌++◌, length, length-append, length-drop, drop, arith, Bool-cases, inl, inr, ltb,
  if◌then◌else◌,
}
use mathlib.Core.List.{append_assoc, append-nil}
use bbgrid.StateStore.{StateStore}
use bbgrid.Reconcile.{Provider}
use bbgrid.Reconcile.Engine.{
  ReconcileResult, ReconcileEngine, new_reconcile_engine, history_size, remember, timer,
  takes_trigger, sees_stop, Step, wakes, triggers, stops, elapses, result_of, do_reconcile,
  can_wake, step, run,
}

-- The last hundred of a list.
abbrev pub recent : List ReconcileResult → List ReconcileResult
recent rs = drop (length rs - history_size) rs

drop-nil : (n : ℕ) → drop {A = ReconcileResult} n [] ≡ []
drop-nil zero = refl
drop-nil (suc n) = refl

drop-before :
    (n : ℕ) (xs ys : List ReconcileResult) → n ≤ length xs → drop n (xs ++ ys) ≡ drop n xs ++ ys
drop-before zero xs ys h = refl
drop-before (suc n) [] ys h = ground arith
drop-before (suc n) (x ∷ xs) ys h = drop-before n xs ys (omega (arith, h))

drop-drop : (m n k : ℕ) (xs : List ReconcileResult) → n + m ≡ k → drop m (drop n xs) ≡ drop k xs
drop-drop m zero k xs e = let same : m ≡ k = omega (arith, e) in rw same refl
drop-drop m (suc n) k [] e = rw (drop-nil m, drop-nil k) refl
drop-drop m (suc n) zero (x ∷ xs) e = ground arith
drop-drop m (suc n) (suc k) (x ∷ xs) e = drop-drop m n k xs (omega (arith, e))

-- Leaving out what is older than the last hundred does not change what the last hundred will be.
recent-recent : (xs ys : List ReconcileResult) → recent (recent xs ++ ys) ≡ recent (xs ++ ys)
recent-recent xs ys =
    let n : ℕ = length xs - history_size in
    let joined : drop n (xs ++ ys) ≡ recent xs ++ ys = drop-before n xs ys (omega arith) in
    let whole : length (xs ++ ys) ≡ length xs + length ys = length-append xs ys in
    let shorter : length (drop n (xs ++ ys)) ≡ length (xs ++ ys) - n = length-drop n (xs ++ ys) in
    ap recent (sym joined)
    ∙ drop-drop (length (drop n (xs ++ ys)) - history_size) n (length (xs ++ ys) - history_size)
        (xs ++ ys) (omega (arith, whole, shorter))

remember-recent :
    (h : List ReconcileResult) (r : ReconcileResult)
    → length h ≤ history_size
    → remember h r ≡ recent (h ++ r ∷ [])
unfolding remember
remember-recent h r l =
    let longer : length (h ++ r ∷ []) ≡ length h + 1 = length-append h (r ∷ []) in
    elim (Bool-cases (ltb history_size (length (h ++ r ∷ [])))) [
      | inl p ↦ let one : length (h ++ r ∷ []) - history_size ≡ 1 = ground arith in rw (p, one) refl
      | inr p ↦
          let none_left : length (h ++ r ∷ []) - history_size ≡ 0 = ground arith in
          rw (p, none_left) refl
    ]

length-recent : (rs : List ReconcileResult) → length (recent rs) ≤ history_size
length-recent rs = omega (arith, length-drop (length rs - history_size) rs)

-- The newest of a list.
abbrev pub newest : Option ReconcileResult → List ReconcileResult → Option ReconcileResult
newest last [] = last
newest last (r ∷ rs) = newest (some r) rs

newest-append :
    (o : Option ReconcileResult) (rs ts : List ReconcileResult)
    → newest o (rs ++ ts) ≡ newest (newest o rs) ts
newest-append o [] ts = refl
newest-append o (r ∷ rs) ts = newest-append (some r) rs ts

module _ {W : Type 0} (p : Provider W) (state : W → StateStore) where
  -- The result of the pass that a step makes, and those of a run in their order.
  abbrev pub pass_of : ReconcileEngine W → Step W → List ReconcileResult
  pass_of e (wakes timer) = if can_wake p state e timer then result_of p state e ∷ [] else []
  pass_of e (wakes takes_trigger) =
      if can_wake p state e takes_trigger then result_of p state e ∷ [] else []
  pass_of e s = []

  unfoldable pub results : ReconcileEngine W → List (Step W) → List ReconcileResult
  unfolding step
  results e [] = []
  results e (s ∷ ss) = pass_of e s ++ results (step p state e s) ss

  -- The history after a step that yields the results `new`.
  record Follows (e e' : ReconcileEngine W) (new : List ReconcileResult) : Type 0 where
    kept : e'.history ≡ recent (e.history ++ new)
    latest : e'.last ≡ newest e.last new

  idle-Follows :
      (e e' : ReconcileEngine W)
      → length e.history ≤ history_size
      → e'.history ≡ e.history
      → e'.last ≡ e.last
      → Follows e e' []
  idle-Follows e e' l h last =
      let all : length e.history - history_size ≡ 0 = omega (arith, l) in
      record { kept = rw (h, append-nil e.history, all) refl; latest = last }

  do_reconcile-Follows :
      (e : ReconcileEngine W)
      → length e.history ≤ history_size
      → Follows e (do_reconcile p state e) (result_of p state e ∷ [])
  unfolding do_reconcile
  do_reconcile-Follows e l = record {
    kept = remember-recent e.history (result_of p state e) l;
    latest = refl;
  }

  step-Follows :
      (e : ReconcileEngine W) (s : Step W)
      → length e.history ≤ history_size
      → Follows e (step p state e s) (pass_of e s)
  unfolding step do_reconcile
  step-Follows e (wakes timer) l = elim (Bool-cases (can_wake p state e timer)) [
    | inl c ↦
        let f = do_reconcile-Follows (record e { started = true }) l in
        rw c (record { kept = f.kept; latest = f.latest })
    | inr c ↦ rw c (idle-Follows e e l refl refl)
  ]
  step-Follows e (wakes takes_trigger) l = elim (Bool-cases (can_wake p state e takes_trigger)) [
    | inl c ↦
        let f = do_reconcile-Follows (record e { triggered = false }) l in
        rw c (record { kept = f.kept; latest = f.latest })
    | inr c ↦ rw c (idle-Follows e e l refl refl)
  ]
  step-Follows e (wakes sees_stop) l = elim (Bool-cases (can_wake p state e sees_stop)) [
    | inl c ↦ rw c (idle-Follows e (record e { ended = true }) l refl refl)
    | inr c ↦ rw c (idle-Follows e e l refl refl)
  ]
  step-Follows e triggers l = idle-Follows e (record e { triggered = true }) l refl refl
  step-Follows e stops l = idle-Follows e (record e { stopped = true }) l refl refl
  step-Follows e (elapses f) l = idle-Follows e (record e { world = f e.world }) l refl refl

  Follows-trans :
      (e e' e'' : ReconcileEngine W) (new newer : List ReconcileResult)
      → Follows e e' new
      → Follows e' e'' newer
      → Follows e e'' (new ++ newer)
  Follows-trans e e' e'' new newer f g = record {
    kept =
        g.kept
        ∙ ap (λ h. recent (h ++ newer)) f.kept
        ∙ recent-recent (e.history ++ new) newer
        ∙ ap recent (append_assoc e.history new newer);
    latest = g.latest ∙ ap (λ o. newest o newer) f.latest ∙ sym (newest-append e.last new newer);
  }

  run-Follows :
      (e : ReconcileEngine W) (ss : List (Step W))
      → length e.history ≤ history_size
      → Follows e (run p state e ss) (results e ss)
  unfolding run results
  run-Follows e [] l = idle-Follows e e l refl refl
  run-Follows e (s ∷ ss) l =
      let f = step-Follows e s l in
      let short : length (step p state e s).history ≤ history_size =
        subst (λ h. length h ≤ history_size) (sym f.kept)
          (length-recent (e.history ++ pass_of e s)) in
      Follows-trans e (step p state e s) _ (pass_of e s) _ f
        (run-Follows (step p state e s) ss short)

  -- After any run of a new engine, with any calls of Trigger and Stop and any changes of the world, such
  -- as its clock and the state store, between the passes, the history holds the results of its last
  -- hundred passes in their order, and the last result is that of its last pass.
  pub run-history :
      (w : W) (ss : List (Step W))
      → let e = new_reconcile_engine w in
        ((run p state e ss).history ≡ recent (results e ss))
        × ((run p state e ss).last ≡ newest none (results e ss))
  run-history w ss =
      let f = run-Follows (new_reconcile_engine w) ss (omega arith) in (f.kept, f.latest)
