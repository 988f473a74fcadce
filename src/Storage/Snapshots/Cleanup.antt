-- ===== src/Storage/Snapshots/Cleanup.antt =====
-- common/store/snapshot.go: which files `cleanupOldSnapshots` leaves.
use bbgrid.Prelude.{
  ℕ, zero, suc, ◌+◌, ◌-◌, ◌≤◌, ◌<◌, ◌≡◌, refl, sym, ap, ◌∙◌, true, false, Option, none, some, List,
  [], ◌∷◌, Text, ◌==◌, text_key, text_eq_iff, if◌then◌else◌, leb, length, length-take, take,
  is_some, Bool-cases, Option-cases, ◌⊎◌, inl, inr, arith,
}
use bbgrid.GoMap.{GoMap, get, delete, get-delete, Unique, delete-Unique}
use bbgrid.Storage.Snapshots.{keys, remove_files, cleanup, sort_files}
use bbgrid.Storage.Snapshots.Sorting.{
  occurrences, UpTo, sort_files-IsSorted, sort_files-occurrences, length-sort_files,
  occurrences-take-drop, take-UpTo-drop,
}

zero_or_more : (n : ℕ) → (n ≡ 0) ⊎ (0 < n)
zero_or_more zero = inl refl
zero_or_more (suc n) = inr (omega arith)

module _ {V : Type 0} where
  abbrev once : Option V → ℕ
  once o = if is_some o then 1 else 0

  found_once : (m : GoMap Text V) (f : Text) (v : V) → get m f ≡ some v → 0 < occurrences f (keys m)
  unfolding get
  found_once [] f v h = cc
  found_once ((k, w) ∷ m) f v h = ground (arith, found_once m f v)

  names_stand_once :
      (m : GoMap Text V) (f : Text) → Unique m → occurrences f (keys m) ≤ once (get m f)
  unfolding get
  names_stand_once [] f u = omega arith
  names_stand_once ((k, w) ∷ m) f u = elim (Bool-cases (k == f)) [
    | inl p ↦
        let same : k ≡ f = (text_eq_iff k f).0 p in
        let absent : get m f ≡ none = rw⁻¹ same u.0 in
        let ih = names_stand_once m f u.1 in ground arith
    | inr p ↦ let ih = names_stand_once m f u.1 in ground arith
  ]

  remove_files-gone :
      (m : GoMap Text V) (ks : List Text) (f : Text)
      → (get m f ≡ none → get (remove_files m ks) f ≡ none)
  unfolding remove_files
  remove_files-gone m [] f h = h
  remove_files-gone m (k ∷ ks) f h =
      remove_files-gone (delete m k) ks f (ground (arith, get-delete m k f))

  remove_files-removed :
      (m : GoMap Text V) (ks : List Text) (f : Text)
      → 0 < occurrences f ks
      → get (remove_files m ks) f ≡ none
  unfolding remove_files
  remove_files-removed m [] f h = absurd (omega arith)
  remove_files-removed m (k ∷ ks) f h = elim (Bool-cases (k == f)) [
    | inl p ↦ remove_files-gone (delete m k) ks f (get-delete m k f ∙ rw p refl)
    | inr p ↦ remove_files-removed (delete m k) ks f (ground arith)
  ]

  remove_files-kept :
      (m : GoMap Text V) (ks : List Text) (f : Text)
      → occurrences f ks ≡ 0
      → get (remove_files m ks) f ≡ get m f
  unfolding remove_files
  remove_files-kept m [] f h = refl
  remove_files-kept m (k ∷ ks) f h = elim (Bool-cases (k == f)) [
    | inl p ↦ absurd (ground arith)
    | inr p ↦ remove_files-kept (delete m k) ks f (ground arith) ∙ get-delete m k f ∙ rw p refl
  ]

  delete-absent :
      (m : GoMap Text V) (k : Text) → get m k ≡ none → length (keys (delete m k)) ≡ length (keys m)
  unfolding get delete
  delete-absent [] k h = refl
  delete-absent ((j, w) ∷ m) k h = ground (arith, delete-absent m k)

  length-delete :
      (m : GoMap Text V) (k : Text) (v : V)
      → Unique m
      → get m k ≡ some v
      → suc (length (keys (delete m k))) ≡ length (keys m)
  unfolding get delete
  length-delete [] k v u h = cc
  length-delete ((j, w) ∷ m) k v u h = elim (Bool-cases (j == k)) [
    | inl p ↦
        let absent : get m k ≡ none = rw⁻¹ ((text_eq_iff j k).0 p) u.0 in
        let rest = delete-absent m k absent in ground arith
    | inr p ↦ let rest = length-delete m k v u.1 (ground arith) in ground arith
  ]

  once_le : (o : Option V) → once o ≤ 1
  once_le none = omega arith
  once_le (some v) = omega arith

  still_once :
      (m : GoMap Text V) (k : Text) (ks : List Text) (f : Text)
      → occurrences f (k ∷ ks) ≤ once (get m f)
      → occurrences f ks ≤ once (get (delete m k) f)
  still_once m k ks f h = elim (Bool-cases (k == f)) [
    | inl p ↦
        let bound = once_le (get m f) in
        let gone : occurrences f ks ≡ 0 = ground arith in omega (arith, gone)
    | inr p ↦ rw (get-delete m k f, p) (ground arith)
  ]

  length-remove_files :
      (m : GoMap Text V) (ks : List Text)
      → Unique m
      → ((f : Text) → occurrences f ks ≤ once (get m f))
      → length (keys (remove_files m ks)) + length ks ≡ length (keys m)
  unfolding remove_files
  length-remove_files m [] u h = omega arith
  length-remove_files m (k ∷ ks) u h = elim (Option-cases (get m k)) [
    | inl p ↦ let here = h k in let same = text_eq_iff k k in absurd (ground arith)
    | inr (v, p) ↦
        let fewer = length-delete m k v u p in
        let rest =
          length-remove_files (delete m k) ks (delete-Unique m k u)
            (λ f. still_once m k ks f (h f)) in
        omega (arith, fewer, rest)
  ]

  cleanup_few :
      (keep : ℕ) (m : GoMap Text V) → leb (length (keys m)) keep ≡ true → cleanup keep m ≡ m
  unfolding cleanup
  cleanup_few keep m p = rw p refl

  cleanup_lem :
      (keep : ℕ) (m : GoMap Text V)
      → leb (length (keys m)) keep ≡ false
      → cleanup keep m ≡ remove_files m (take (length (keys m) - keep) (sort_files (keys m)))
  unfolding cleanup
  cleanup_lem keep m p = rw p refl

  removed_first :
      (m : GoMap Text V) (n : ℕ) (g f : Text) (w v : V)
      → get m g ≡ some w
      → get (remove_files m (take n (sort_files (keys m)))) g ≡ none
      → get (remove_files m (take n (sort_files (keys m)))) f ≡ some v
      → UpTo g f
  removed_first m n g f w v old removed left =
      let sorted = sort_files (keys m) in
      let taken = take n sorted in
      let g_taken : 0 < occurrences g taken = elim (zero_or_more (occurrences g taken)) [
        | inl p ↦ let stays = remove_files-kept m taken g p in absurd cc
        | inr p ↦ p
      ] in
      let f_left : occurrences f taken ≡ 0 = elim (zero_or_more (occurrences f taken)) [
        | inl p ↦ p
        | inr p ↦ let goes = remove_files-removed m taken f p in absurd cc
      ] in
      let f_old : get m f ≡ some v = sym (remove_files-kept m taken f f_left) ∙ left in
      take-UpTo-drop n sorted g f (sort_files-IsSorted (keys m)) g_taken (
        omega (
          arith,
          f_left,
          found_once m f v f_old,
          occurrences-take-drop n sorted f,
          sort_files-occurrences (keys m) f,
        ))

  -- Where every removal succeeds, a file that the clean-up removes does not stand after a file that it
  -- leaves, in the order of the names.
  pub cleanup-newest :
      (keep : ℕ) (m : GoMap Text V) (g f : Text) (w v : V)
      → get m g ≡ some w
      → get (cleanup keep m) g ≡ none
      → get (cleanup keep m) f ≡ some v
      → UpTo g f
  cleanup-newest keep m g f w v old removed left = elim (Bool-cases (leb (length (keys m)) keep)) [
    | inl p ↦ let all_stay = cleanup_few keep m p in absurd cc
    | inr p ↦
        let few = cleanup_lem keep m p in
        removed_first m (length (keys m) - keep) g f w v old
          (ap (λ (c : GoMap Text V). get c g) (sym few) ∙ removed)
          (ap (λ (c : GoMap Text V). get c f) (sym few) ∙ left)
  ]

  -- The clean-up leaves at most as many files as it is to keep.
  pub length-cleanup :
      (keep : ℕ) (m : GoMap Text V) → Unique m → length (keys (cleanup keep m)) ≤ keep
  length-cleanup keep m u = elim (Bool-cases (leb (length (keys m)) keep)) [
    | inl p ↦ rw (cleanup_few keep m p) (ground arith)
    | inr p ↦
        let sorted = sort_files (keys m) in
        let n = length (keys m) - keep in
        let rest = length-remove_files m (take n sorted) u (λ f. omega (
          arith,
          names_stand_once m f u,
          sort_files-occurrences (keys m) f,
          occurrences-take-drop n sorted f,
        )) in
        rw (cleanup_lem keep m p)
          (omega (arith, rest, length-take n sorted, length-sort_files (keys m)))
  ]
