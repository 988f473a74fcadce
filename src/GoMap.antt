-- ===== src/GoMap.antt =====
-- Go's built-in map, as an association list.
use bbgrid.Prelude.{
  ◌⊎◌, inl, inr, ◌≡◌, refl, sym, subst, ◌∙◌, Bool, true, false, Option, none, some, List, [], ◌∷◌,
  arith, Eq, ◌==◌, if◌then◌else◌, All, ==_refl,
}
use mathlib.Core.Option.{some-injective}

abbrev pub GoMap {ℓ κ} : Type ℓ → Type κ → Type (ℓ ⊔ κ)
GoMap K V = List (K × V)

abbrev pub keep_unless {κ} : {V : Type κ} → (V → Bool) → Option V → Option V
keep_unless p none = none
keep_unless p (some v) = if p v then none else some v

-- The values in the order of the list; Go leaves the order of `range` open.
abbrev pub values {ℓ κ} : {K : Type ℓ} {V : Type κ} → GoMap K V → List V
values [] = []
values ((k, v) ∷ m) = v ∷ values m

module _ {ℓ κ} {K : Type ℓ} {V : Type κ} ⦃e : Eq K⦄ where
  -- `v, ok := m[k]`
  unfoldable pub get : GoMap K V → K → Option V
  get [] k = none
  get ((j, v) ∷ m) k = if j == k then some v else get m k

  -- `m[k] = v`
  unfoldable pub put : GoMap K V → K → V → GoMap K V
  put [] k v = (k, v) ∷ []
  put ((j, w) ∷ m) k v = if j == k then (k, v) ∷ m else (j, w) ∷ put m k v

  -- `delete(m, k)`
  unfoldable pub delete : GoMap K V → K → GoMap K V
  delete [] k = []
  delete ((j, w) ∷ m) k = let rest = delete m k in if j == k then rest else (j, w) ∷ rest

  -- `for k, v := range m { if p(v) { delete(m, k) } }`
  unfoldable pub delete_if : (V → Bool) → GoMap K V → GoMap K V
  delete_if p [] = []
  delete_if p ((j, w) ∷ m) = let rest = delete_if p m in if p w then rest else (j, w) ∷ rest

  pub get-put :
      (m : GoMap K V) (k j : K) (v : V) → get (put m k v) j ≡ (if k == j then some v else get m j)
  unfolding get put
  get-put [] k j v = refl
  get-put ((i, w) ∷ m) k j v =
      ground (arith, e.same_iff i k, e.same_iff i j, e.same_iff k j, get-put m k j v)

  pub get-delete :
      (m : GoMap K V) (k j : K) → get (delete m k) j ≡ (if k == j then none else get m j)
  unfolding get delete
  get-delete [] k j = ground arith
  get-delete ((i, w) ∷ m) k j =
      ground (arith, e.same_iff i k, e.same_iff i j, e.same_iff k j, get-delete m k j)

  -- No key stands twice, as in every Go map.
  abbrev pub Unique : GoMap K V → Type κ
  Unique [] = Unit
  Unique ((k, v) ∷ m) = (get m k ≡ none) × Unique m

  pub put-Unique : (m : GoMap K V) (k : K) (v : V) → Unique m → Unique (put m k v)
  unfolding get put
  put-Unique [] k v u = (refl, tt)
  put-Unique ((i, w) ∷ m) k v u =
      ground (arith, e.same_iff i k, e.same_iff k i, get-put m k i v, put-Unique m k v u.1)

  pub delete-Unique : (m : GoMap K V) (k : K) → Unique m → Unique (delete m k)
  unfolding delete
  delete-Unique [] k u = tt
  delete-Unique ((i, w) ∷ m) k u = ground (arith, get-delete m k i, delete-Unique m k u.1)

  delete_if-none :
      (p : V → Bool) (m : GoMap K V) (k : K) → get m k ≡ none → get (delete_if p m) k ≡ none
  unfolding get delete_if
  delete_if-none p [] k h = refl
  delete_if-none p ((i, w) ∷ m) k h = ground (arith, delete_if-none p m k)

  pub delete_if-Unique : (p : V → Bool) (m : GoMap K V) → Unique m → Unique (delete_if p m)
  unfolding delete_if
  delete_if-Unique p [] u = tt
  delete_if-Unique p ((i, w) ∷ m) u = ground (arith, delete_if-none p m i, delete_if-Unique p m u.1)

  pub get-delete_if :
      (p : V → Bool) (m : GoMap K V) (k : K)
      → Unique m
      → get (delete_if p m) k ≡ keep_unless p (get m k)
  unfolding get delete_if
  get-delete_if p [] k u = refl
  get-delete_if p ((i, w) ∷ m) k u =
      ground (arith, e.same_iff i k, delete_if-none p m i u.0, get-delete_if p m k u.1)

-- What a lookup after a change has found.
module _ {ℓ κ} {K : Type ℓ} {V : Type κ} ⦃e : Eq K⦄ where
  pub put-found :
      (m : GoMap K V) (k j : K) (v w : V)
      → get (put m k v) j ≡ some w
      → ((k ≡ j) × (v ≡ w)) ⊎ ((k == j ≡ false) × (get m j ≡ some w))
  put-found m k j v w found = either (k == j) refl (sym (get-put m k j v) ∙ found)
    where
      either :
          (b : Bool)
          → (k == j) ≡ b
          → (if b then some v else get m j) ≡ some w
          → ((k ≡ j) × (v ≡ w)) ⊎ ((k == j ≡ false) × (get m j ≡ some w))
      either true same h = inl ((e.same_iff k j).0 same, some-injective v w h)
      either false other h = inr (other, h)

  pub delete-found :
      (m : GoMap K V) (k j : K) (w : V)
      → get (delete m k) j ≡ some w
      → (k == j ≡ false) × (get m j ≡ some w)
  delete-found m k j w found = either (k == j) refl (sym (get-delete m k j) ∙ found)
    where
      either :
          (b : Bool)
          → (k == j) ≡ b
          → (if b then none else get m j) ≡ some w
          → (k == j ≡ false) × (get m j ≡ some w)
      either true same h = cc
      either false other h = (other, h)

  -- A key that is in the map is not one that is not.
  pub other_key :
      (m : GoMap K V) (i k : K) (v : V) → get m i ≡ none → get m k ≡ some v → i == k ≡ false
  other_key m i k v absent found = ground (arith, e.same_iff i k)

  pub get-tail :
      (m : GoMap K V) (i k : K) (w v : V)
      → get m i ≡ none
      → get m k ≡ some v
      → get ((i, w) ∷ m) k ≡ some v
  unfolding get
  get-tail m i k w v absent found = rw (other_key m i k v absent found) found

pub ruleset map_laws = (get-put, get-delete)

module _ {ℓ κ μ} {K : Type ℓ} {V : Type κ} ⦃e : Eq K⦄ (P : V → Type μ) where
  -- What holds of every value that a key has holds of every value of the range.
  pub values-All :
      (m : GoMap K V) → Unique m → ((k : K) (v : V) → get m k ≡ some v → P v) → All P (values m)
  unfolding get
  values-All [] u h = tt
  values-All ((i, w) ∷ m) u h =
      (h i w (rw (==_refl i)), values-All m u.1 (λ k v found. h k v (later i w m k v u.0 found)))
    where
      later :
          (i : K) (w : V) (m : GoMap K V) (k : K) (v : V)
          → get m i ≡ none
          → get m k ≡ some v
          → get ((i, w) ∷ m) k ≡ some v
      later i w m k v absent found = ground (arith, e.same_iff i k)

module _ {ℓ κ μ} {K : Type ℓ} {V : Type κ} ⦃e : Eq K⦄ (P : K → V → Type μ) where
  -- `P` holds of each key with its value.
  abbrev pub Each : GoMap K V → Type (ℓ ⊔ κ ⊔ μ)
  Each m = (k : K) (v : V) → get m k ≡ some v → P k v

  -- `P` holds of each key but `k`.
  abbrev pub Others : GoMap K V → K → Type (ℓ ⊔ κ ⊔ μ)
  Others m k = (j : K) (v : V) → k == j ≡ false → get m j ≡ some v → P j v

  put_either :
      (m : GoMap K V) (k : K) (v : V) (j : K) (w : V) (b : Bool)
      → k == j ≡ b
      → Others m k
      → P k v
      → (if b then some v else get m j) ≡ some w
      → P j w
  put_either m k v j w true same h p found =
      subst (λ x. P x w) ((e.same_iff k j).0 same) (subst (λ x. P k x) (some-injective v w found) p)
  put_either m k v j w false same h p found = h j w same found

  pub put-Others : (m : GoMap K V) (k : K) (v : V) → Others m k → P k v → Each (put m k v)
  put-Others m k v h p j w found =
      put_either m k v j w (k == j) refl h p (sym (get-put m k j v) ∙ found)

  pub put-Each : (m : GoMap K V) (k : K) (v : V) → Each m → P k v → Each (put m k v)
  put-Each m k v h = put-Others m k v (λ j w other found. h j w found)

  pub delete-Others : (m : GoMap K V) (k : K) → Others m k → Each (delete m k)
  delete-Others m k h j w found = ground (arith, get-delete m k j, h j w)

  pub delete-Each : (m : GoMap K V) (k : K) → Each m → Each (delete m k)
  delete-Each m k h = delete-Others m k (λ j w other found. h j w found)
