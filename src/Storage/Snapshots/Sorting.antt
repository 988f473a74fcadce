-- ===== src/Storage/Snapshots/Sorting.antt =====
-- common/store/snapshot.go: `sortFiles` sorts, and loses no name.
use bbgrid.Prelude.{
  ℕ, zero, suc, ◌+◌, ◌≤◌, ◌<◌, ◌≡◌, refl, true, false, List, [], ◌∷◌, Text, ◌==◌, text_key,
  text_eq_iff, if◌then◌else◌, length, All, Bool-cases, inl, inr, arith, take, drop,
}
use bbgrid.Storage.Snapshots.{text_lt, settle, sort_loop, sort_files}

-- How often a name stands in a list.
abbrev pub occurrences : Text → List Text → ℕ
occurrences f [] = 0
occurrences f (x ∷ xs) = (if x == f then 1 else 0) + occurrences f xs

-- `s` stands before `t`, or they are equal.
abbrev pub UpTo : Text → Text → Type 0
UpTo s t = text_lt t s ≡ false

abbrev pub IsSorted : List Text → Type 0
IsSorted [] = Unit
IsSorted (x ∷ xs) = All (UpTo x) xs × IsSorted xs

pub UpTo-trans : (s t u : Text) → UpTo s t → UpTo t u → UpTo s u
UpTo-trans [] t u h k = ground arith
UpTo-trans (x ∷ s) [] u h k = cc
UpTo-trans (x ∷ s) (y ∷ t) [] h k = cc
UpTo-trans (x ∷ s) (y ∷ t) (z ∷ u) h k = ground (arith, UpTo-trans s t u)

text_lt_asym : (s t : Text) → text_lt s t ≡ true → UpTo s t
text_lt_asym [] [] h = cc
text_lt_asym [] (y ∷ t) h = refl
text_lt_asym (x ∷ s) [] h = cc
text_lt_asym (x ∷ s) (y ∷ t) h = ground (arith, text_lt_asym s t)

UpTo-refl : (s : Text) → UpTo s s
UpTo-refl [] = refl
UpTo-refl (x ∷ s) = ground (arith, UpTo-refl s)

-- What one pass of the inner loop leaves.
record Settles (x : Text) (ys : List Text) (r : Text × List Text) : Type 0 where
  before : UpTo r.0 x
  least : All (UpTo r.0) r.1
  same : (f : Text) → occurrences f (r.0 ∷ r.1) ≡ occurrences f (x ∷ ys)
  long : length r.1 ≡ length ys

settle-Settles : (x : Text) (ys : List Text) → Settles x ys (settle x ys)
unfolding settle
settle-Settles x [] = record { before = UpTo-refl x; least = tt; same = λ f. refl; long = refl }
settle-Settles x (y ∷ ys) = elim (Bool-cases (text_lt y x)) [
  | inl p ↦
      let ih = settle-Settles y ys in
      simp p (record {
        before = UpTo-trans (settle y ys).0 y x ih.before (text_lt_asym y x p);
        least = (UpTo-trans (settle y ys).0 y x ih.before (text_lt_asym y x p), ih.least);
        same = λ f. omega (arith, ih.same f);
        long = omega (arith, ih.long);
      })
  | inr p ↦
      let ih = settle-Settles x ys in
      simp p (record {
        before = ih.before;
        least = (UpTo-trans (settle x ys).0 x y ih.before p, ih.least);
        same = λ f. omega (arith, ih.same f);
        long = omega (arith, ih.long);
      })
]

occurrences_here : (x : Text) (xs : List Text) → 0 < occurrences x (x ∷ xs)
occurrences_here x xs = ground (arith, text_eq_iff x x)

All-occurrences :
    (x : Text) (xs : List Text) → ((f : Text) → 0 < occurrences f xs → UpTo x f) → All (UpTo x) xs
All-occurrences x [] h = tt
All-occurrences x (y ∷ ys) h =
    (h y (occurrences_here y ys), All-occurrences x ys (λ f k. h f (omega arith)))

pub UpTo-occurrences :
    (x f : Text) (xs : List Text) → All (UpTo x) xs → 0 < occurrences f xs → UpTo x f
UpTo-occurrences x f [] h k = absurd (omega arith)
UpTo-occurrences x f (y ∷ ys) h k = elim (Bool-cases (y == f)) [
  | inl p ↦ rw⁻¹ ((text_eq_iff y f).0 p) h.0
  | inr p ↦ UpTo-occurrences x f ys h.1 (ground arith)
]

sort_loop-occurrences :
    (fuel : ℕ) (xs : List Text) (f : Text) → occurrences f (sort_loop fuel xs) ≡ occurrences f xs
unfolding sort_loop
sort_loop-occurrences zero xs f = refl
sort_loop-occurrences (suc fuel) [] f = refl
sort_loop-occurrences (suc fuel) (x ∷ xs) f =
    let ih = sort_loop-occurrences fuel (settle x xs).1 f in
    let s = (settle-Settles x xs).same f in omega (arith, ih, s)

sort_loop-IsSorted : (fuel : ℕ) (xs : List Text) → length xs ≤ fuel → IsSorted (sort_loop fuel xs)
unfolding sort_loop
sort_loop-IsSorted zero [] h = tt
sort_loop-IsSorted zero (x ∷ xs) h = absurd (omega arith)
sort_loop-IsSorted (suc fuel) [] h = tt
sort_loop-IsSorted (suc fuel) (x ∷ xs) h =
    let s = settle-Settles x xs in
    (
      All-occurrences (settle x xs).0 (sort_loop fuel (settle x xs).1) (λ f k.
          UpTo-occurrences (settle x xs).0 f (settle x xs).1 s.least
            (omega (arith, k, sort_loop-occurrences fuel (settle x xs).1 f))),
      sort_loop-IsSorted fuel (settle x xs).1 (omega (arith, h, s.long)),
    )

-- The result of `sortFiles` is in order.
pub sort_files-IsSorted : (xs : List Text) → IsSorted (sort_files xs)
unfolding sort_files
sort_files-IsSorted xs = sort_loop-IsSorted (length xs) xs (omega arith)

-- It holds every name as often as before.
pub sort_files-occurrences :
    (xs : List Text) (f : Text) → occurrences f (sort_files xs) ≡ occurrences f xs
unfolding sort_files
sort_files-occurrences xs f = sort_loop-occurrences (length xs) xs f

length-sort_loop : (fuel : ℕ) (xs : List Text) → length (sort_loop fuel xs) ≡ length xs
unfolding sort_loop
length-sort_loop zero xs = refl
length-sort_loop (suc fuel) [] = refl
length-sort_loop (suc fuel) (x ∷ xs) =
    omega (arith, length-sort_loop fuel (settle x xs).1, (settle-Settles x xs).long)

pub length-sort_files : (xs : List Text) → length (sort_files xs) ≡ length xs
unfolding sort_files
length-sort_files xs = length-sort_loop (length xs) xs

pub occurrences-take-drop :
    (n : ℕ) (xs : List Text) (f : Text)
    → occurrences f (take n xs) + occurrences f (drop n xs) ≡ occurrences f xs
occurrences-take-drop zero xs f = omega arith
occurrences-take-drop (suc n) [] f = omega arith
occurrences-take-drop (suc n) (x ∷ xs) f = omega (arith, occurrences-take-drop n xs f)

-- Names on the two sides of a cut through a sorted list are in order.
pub take-UpTo-drop :
    (n : ℕ) (xs : List Text) (g f : Text)
    → IsSorted xs
    → 0 < occurrences g (take n xs)
    → 0 < occurrences f (drop n xs)
    → UpTo g f
take-UpTo-drop zero xs g f h k l = absurd (omega arith)
take-UpTo-drop (suc n) [] g f h k l = absurd (omega arith)
take-UpTo-drop (suc n) (x ∷ xs) g f h k l = elim (Bool-cases (x == g)) [
  | inl p ↦
      rw⁻¹ ((text_eq_iff x g).0 p)
        (UpTo-occurrences x f xs h.0 (omega (arith, l, occurrences-take-drop n xs f)))
  | inr p ↦ take-UpTo-drop n xs g f h.1 (ground arith) l
]
