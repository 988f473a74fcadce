-- ===== src/Reconcile/Laws.antt =====
-- The loops of BBgrid_Server/runtime/reconcile.go, for any items, keys, clock and provider.
use bbgrid.Prelude.{
  ℕ, ◌+◌, ◌≤◌, ◌≡◌, refl, ap, ◌∙◌, Bool, true, List, [], ◌∷◌, map, Text, ℤ, text_key, if◌then◌else◌,
  arith, All,
}
use bbgrid.Reconcile.{
  Pass, contains, visit_desired, visit_actual, create_missing, delete_extra, reconcile_items,
}

-- The number of items whose key is not in the set.
abbrev pub outside : {A : Type 0} → (A → Text) → List Text → List A → ℕ
outside key set [] = 0
outside key set (a ∷ as') = (if contains (key a) set then 0 else 1) + outside key set as'

-- No call was made and nothing was counted between two states of a pass.
pub record Idle {W : Type 0} (r t : Pass W) : Type 0 where
  pub world : t.world ≡ r.world
  pub total : t.total ≡ r.total
  pub fixed : t.fixed ≡ r.fixed
  pub failed : t.failed ≡ r.failed

Idle-refl : {W : Type 0} (r : Pass W) → Idle r r
Idle-refl r = record { world = refl; total = refl; fixed = refl; failed = refl }

Idle-trans : {W : Type 0} {r t u : Pass W} → Idle r t → Idle t u → Idle r u
Idle-trans h k = record {
  world = k.world ∙ h.world;
  total = k.total ∙ h.total;
  fixed = k.fixed ∙ h.fixed;
  failed = k.failed ∙ h.failed;
}

module _ {W D A : Type 0} (now : W → ℤ) (create : D → W → Bool × W) (delete : A → W → Bool × W)
    (desired_key : D → Text) (actual_key : A → Text) where
  abbrev create_all : List Text → List D → Pass W → Pass W
  create_all = create_missing now create delete desired_key actual_key

  abbrev delete_all : List Text → List A → Pass W → Pass W
  delete_all = delete_extra now create delete desired_key actual_key

  abbrev visit : List Text → Pass W → D → Pass W
  visit = visit_desired now create delete desired_key actual_key

  abbrev visit_a : List Text → Pass W → A → Pass W
  visit_a = visit_actual now create delete desired_key actual_key

  abbrev run : List D → List A → Pass W → Pass W
  run = reconcile_items now create delete desired_key actual_key

  visit-total :
      (set : List Text) (r : Pass W) (d : D)
      → (visit set r d).total ≡ r.total + (if contains (desired_key d) set then 0 else 1)
  unfolding visit_desired
  visit-total set r d = ground arith

  visit_a-total :
      (set : List Text) (r : Pass W) (a : A)
      → (visit_a set r a).total ≡ r.total + (if contains (actual_key a) set then 0 else 1)
  unfolding visit_actual
  visit_a-total set r a = ground arith

  create_missing-total :
      (set : List Text) (ds : List D) (r : Pass W)
      → (create_all set ds r).total ≡ r.total + outside desired_key set ds
  unfolding create_missing
  create_missing-total set [] r = omega arith
  create_missing-total set (d ∷ ds) r =
      omega (arith, create_missing-total set ds (visit set r d), visit-total set r d)

  delete_extra-total :
      (set : List Text) (as' : List A) (r : Pass W)
      → (delete_all set as' r).total ≡ r.total + outside actual_key set as'
  unfolding delete_extra
  delete_extra-total set [] r = omega arith
  delete_extra-total set (a ∷ as') r =
      omega (arith, delete_extra-total set as' (visit_a set r a), visit_a-total set r a)

  -- The total of a pass is the number of desired items that do not exist and of items that exist and
  -- are not desired.
  pub reconcile_items-total :
      (ds : List D) (as' : List A) (r : Pass W)
      → (run ds as' r).total
        ≡ r.total
          + outside desired_key (map actual_key as') ds
          + outside actual_key (map desired_key ds) as'
  unfolding reconcile_items
  reconcile_items-total ds as' r = omega (
    arith,
    create_missing-total (map actual_key as') ds r,
    delete_extra-total (map desired_key ds) as' (create_all (map actual_key as') ds r),
  )

  -- What was repaired or failed was due.
  abbrev pub IsAccounted : Pass W → Type 0
  IsAccounted r = r.fixed + r.failed ≤ r.total

  visit-IsAccounted :
      (set : List Text) (r : Pass W) (d : D) → IsAccounted r → IsAccounted (visit set r d)
  unfolding visit_desired
  visit-IsAccounted set r d h = ground arith

  visit_a-IsAccounted :
      (set : List Text) (r : Pass W) (a : A) → IsAccounted r → IsAccounted (visit_a set r a)
  unfolding visit_actual
  visit_a-IsAccounted set r a h = ground arith

  create_missing-IsAccounted :
      (set : List Text) (ds : List D) (r : Pass W)
      → IsAccounted r
      → IsAccounted (create_all set ds r)
  unfolding create_missing
  create_missing-IsAccounted set [] r h = h
  create_missing-IsAccounted set (d ∷ ds) r h =
      create_missing-IsAccounted set ds (visit set r d) (visit-IsAccounted set r d h)

  delete_extra-IsAccounted :
      (set : List Text) (as' : List A) (r : Pass W)
      → IsAccounted r
      → IsAccounted (delete_all set as' r)
  unfolding delete_extra
  delete_extra-IsAccounted set [] r h = h
  delete_extra-IsAccounted set (a ∷ as') r h =
      delete_extra-IsAccounted set as' (visit_a set r a) (visit_a-IsAccounted set r a h)

  pub reconcile_items-IsAccounted :
      (ds : List D) (as' : List A) (r : Pass W) → IsAccounted r → IsAccounted (run ds as' r)
  unfolding reconcile_items
  reconcile_items-IsAccounted ds as' r h =
      delete_extra-IsAccounted (map desired_key ds) as' (create_all (map actual_key as') ds r)
        (create_missing-IsAccounted (map actual_key as') ds r h)

  visit-Idle :
      (set : List Text) (r : Pass W) (d : D)
      → contains (desired_key d) set ≡ true
      → Idle r (visit set r d)
  unfolding visit_desired
  visit-Idle set r d h = ground arith

  -- Desired items that all exist cost no call.
  pub create_missing-Idle :
      (set : List Text) (ds : List D) (r : Pass W)
      → All (λ d. contains (desired_key d) set ≡ true) ds
      → Idle r (create_all set ds r)
  unfolding create_missing
  create_missing-Idle set [] r h = Idle-refl r
  create_missing-Idle set (d ∷ ds) r h =
      Idle-trans (visit-Idle set r d h.0) (create_missing-Idle set ds (visit set r d) h.1)

  -- The calls of `delete` that a list of items costs, in their order.
  abbrev pub deletions : List Text → List A → W → W
  deletions set [] w = w
  deletions set (a ∷ as') w =
      deletions set as' (if contains (actual_key a) set then w else (delete a w).1)

  visit_a-world :
      (set : List Text) (r : Pass W) (a : A)
      → (visit_a set r a).world
        ≡ (if contains (actual_key a) set then r.world else (delete a r.world).1)
  unfolding visit_actual
  visit_a-world set r a = ground arith

  delete_extra-world :
      (set : List Text) (as' : List A) (r : Pass W)
      → (delete_all set as' r).world ≡ deletions set as' r.world
  unfolding delete_extra
  delete_extra-world set [] r = refl
  delete_extra-world set (a ∷ as') r =
      delete_extra-world set as' (visit_a set r a) ∙ ap (deletions set as') (visit_a-world set r a)

  -- Where every desired item exists, a pass makes no call but one `delete` for each item that exists
  -- and is not desired.
  pub reconcile_items-world :
      (ds : List D) (as' : List A) (r : Pass W)
      → All (λ d. contains (desired_key d) (map actual_key as') ≡ true) ds
      → (run ds as' r).world ≡ deletions (map desired_key ds) as' r.world
  unfolding reconcile_items
  reconcile_items-world ds as' r h =
      delete_extra-world (map desired_key ds) as' (create_all (map actual_key as') ds r)
      ∙ ap (deletions (map desired_key ds) as')
          (create_missing-Idle (map actual_key as') ds r h).world
