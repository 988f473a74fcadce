-- ===== src/Reconcile/Store.antt =====
-- A pass of BBgrid_Server/runtime/reconcile.go over the store of BBgrid_Server/runtime/statestore.go,
-- which is both its desired and its actual state.
use bbgrid.Prelude.{
  ℕ, ◌+◌, ◌≡◌, refl, ap, ◌∙◌, Bool, true, false, not, some, List, [], ◌∷◌, map, Text, ◌==◌,
  text_key, int_key, text_eq_iff, int_eq_iff, if◌then◌else◌, arith, All, Bool-cases, Option-cases,
  inl, inr, ==_refl,
}
use bbgrid.GoMap.{GoMap, get, values, values-All}
use bbgrid.Types.{ProxyState, ProxyDesiredState}
use bbgrid.StateStore.{
  StateStore, proxy_key, proxy_info, list_proxies, get_desired_proxies, valid_proxies,
}
use bbgrid.StateStore.Apply.{desired_of}
use bbgrid.StateStore.Keys.{proxy_key_eq}
use bbgrid.StateStore.Mirror.{IsMirrored}
use bbgrid.StateStore.Restore.{is_incomplete, actual_of}
use bbgrid.Reconcile.Backoff.{Failures}
use bbgrid.Reconcile.{
  Provider, contains, reconcile_proxies, desired_proxy_key, proxy_info_key, start_pass,
}
use bbgrid.Reconcile.Laws.{reconcile_items-world, reconcile_items-total, outside, deletions}

contains-values :
    {V : Type 0} (f : V → Text) (m : GoMap Text V) (k : Text) (v : V)
    → get m k ≡ some v
    → contains (f v) (map f (values m)) ≡ true
unfolding contains get
contains-values f [] k v h = cc
contains-values f ((i, w) ∷ m) k v h =
    ground (arith, contains-values f m k v, ==_refl {K = Text} (f v))

abbrev pub state_key : ProxyState → Text
state_key p = proxy_key p.client_id p.remote_port

info_keys :
    (ip : Text) (ps : List ProxyState)
    → map proxy_info_key (map (proxy_info ip) ps) ≡ map state_key ps
unfolding proxy_info
info_keys ip [] = refl
info_keys ip (p ∷ ps) = ap (◌∷◌ (state_key p)) (info_keys ip ps)

valid_proxies-All :
    (P : ProxyDesiredState → Type 0) (ds : List ProxyDesiredState)
    → All P ds
    → All P (valid_proxies ds)
unfolding valid_proxies
valid_proxies-All P [] h = tt
valid_proxies-All P (d ∷ ds) h = elim (Bool-cases (is_incomplete d)) [
  | inl e ↦ rw e (valid_proxies-All P ds h.1)
  | inr e ↦ rw e (h.0, valid_proxies-All P ds h.1)
]

-- A complete entry keeps its key among the desired ones.
contains-valid :
    (m : GoMap Text ProxyDesiredState) (k : Text) (d : ProxyDesiredState)
    → get m k ≡ some d
    → is_incomplete d ≡ false
    → contains (desired_proxy_key d) (map desired_proxy_key (valid_proxies (values m))) ≡ true
unfolding contains get valid_proxies
contains-valid [] k d h c = cc
contains-valid ((i, w) ∷ m) k d h c =
    ground (arith, contains-valid m k d, ==_refl {K = Text} (desired_proxy_key d))

-- No complete entry has the key of an incomplete one.
incomplete_key :
    (d e : ProxyDesiredState)
    → is_incomplete d ≡ false
    → is_incomplete e ≡ true
    → desired_proxy_key d == desired_proxy_key e ≡ false
incomplete_key d e c i = ground (
  arith,
  proxy_key_eq d.client_id e.client_id d.remote_port e.remote_port,
  text_eq_iff d.client_id e.client_id,
  int_eq_iff d.remote_port e.remote_port,
)

contains-incomplete :
    (ds : List ProxyDesiredState) (e : ProxyDesiredState)
    → is_incomplete e ≡ true
    → contains (desired_proxy_key e) (map desired_proxy_key (valid_proxies ds)) ≡ false
unfolding contains valid_proxies
contains-incomplete [] e i = refl
contains-incomplete (d ∷ ds) e i = elim (Bool-cases (is_incomplete d)) [
  | inl c ↦ rw c (contains-incomplete ds e i)
  | inr c ↦ rw (c, incomplete_key d e c i) (contains-incomplete ds e i)
]

if_not : {A : Type 0} (b : Bool) (x y : A) → (if not b then x else y) ≡ (if b then y else x)
if_not true x y = refl
if_not false x y = refl

-- The calls for the incomplete proxies, in their order.
abbrev pub delete_incomplete : {W : Type 0} → Provider W → List ProxyState → W → W
delete_incomplete p [] w = w
delete_incomplete p (q ∷ qs) w =
    delete_incomplete p qs
      (if is_incomplete (desired_of q) then (p.delete_proxy q.client_id q.remote_port w).1 else w)

abbrev pub count_incomplete : List ProxyState → ℕ
count_incomplete [] = 0
count_incomplete (q ∷ qs) = (if is_incomplete (desired_of q) then 1 else 0) + count_incomplete qs

module _ (s : StateStore) (mirrored : IsMirrored s) where
  abbrev desired_set : List Text
  desired_set = map desired_proxy_key (get_desired_proxies s)

  abbrev HasKey : ProxyDesiredState → Type 0
  HasKey d = contains (desired_proxy_key d) (map proxy_info_key (list_proxies s)) ≡ true

  desired_exists : (k : Text) (d : ProxyDesiredState) → get s.desired_proxies k ≡ some d → HasKey d
  unfolding list_proxies
  desired_exists k d h = elim (Option-cases (get s.proxies k)) [
    | inl absent ↦ ground (arith, mirrored.proxies.at k)
    | inr (p, there) ↦
        let e : desired_of p ≡ d = ground (arith, mirrored.proxies.at k) in
        rw (← e, info_keys s.public_ip (values s.proxies))
          (contains-values state_key s.proxies k p there)
  ]

  desired-All : All HasKey (get_desired_proxies s)
  unfolding get_desired_proxies
  desired-All =
      valid_proxies-All HasKey (values s.desired_proxies)
        (values-All HasKey s.desired_proxies mirrored.proxies.desired_unique desired_exists)

  -- A proxy is desired unless it lacks a client or a port.
  abbrev IsDesired : ProxyState → Type 0
  IsDesired p = contains (state_key p) desired_set ≡ not (is_incomplete (desired_of p))

  proxy-IsDesired : (k : Text) (p : ProxyState) → get s.proxies k ≡ some p → IsDesired p
  unfolding get_desired_proxies
  proxy-IsDesired k p h = elim (Bool-cases (is_incomplete (desired_of p))) [
    | inl i ↦ rw i (contains-incomplete (values s.desired_proxies) (desired_of p) i)
    | inr c ↦ rw c (
        contains-valid s.desired_proxies k (desired_of p) (ground (arith, mirrored.proxies.at k)) c)
  ]

  actual-All : All IsDesired (values s.proxies)
  actual-All = values-All IsDesired s.proxies mirrored.proxies.unique proxy-IsDesired

  deletions-eq :
      {W : Type 0} (p : Provider W) (qs : List ProxyState) (w : W)
      → All IsDesired qs
      → deletions p.now
          (λ d. p.create_proxy d.client_id (actual_of d))
          (λ a. p.delete_proxy a.client_id a.remote_port)
          desired_proxy_key
          proxy_info_key
          desired_set
          (map (proxy_info s.public_ip) qs)
          w
        ≡ delete_incomplete p qs w
  unfolding proxy_info
  deletions-eq p [] w h = refl
  deletions-eq p (q ∷ qs) w h =
      let gone = (p.delete_proxy q.client_id q.remote_port w).1 in
      deletions-eq p qs (if contains (state_key q) desired_set then w else gone) h.1
      ∙ ap (delete_incomplete p qs)
          (ap (λ b. if b then w else gone) h.0 ∙ if_not (is_incomplete (desired_of q)) w gone)

  outside-actual :
      (qs : List ProxyState)
      → All IsDesired qs
      → outside proxy_info_key desired_set (map (proxy_info s.public_ip) qs) ≡ count_incomplete qs
  unfolding proxy_info
  outside-actual [] h = refl
  outside-actual (q ∷ qs) h = elim (Bool-cases (is_incomplete (desired_of q))) [
    | inl i ↦ rw (h.0, i) (omega (arith, outside-actual qs h.1))
    | inr c ↦ rw (h.0, c) (omega (arith, outside-actual qs h.1))
  ]

outside-All :
    {A : Type 0} (key : A → Text) (set : List Text) (as' : List A)
    → All (λ a. contains (key a) set ≡ true) as'
    → outside key set as' ≡ 0
outside-All key set [] h = refl
outside-All key set (a ∷ as') h = rw h.0 (omega (arith, outside-All key set as' h.1))

module _ {W : Type 0} (p : Provider W) (s : StateStore) (w : W) (f : Failures) where
  pub pass_world :
      IsMirrored s → (reconcile_proxies p s w f).world ≡ delete_incomplete p (values s.proxies) w
  unfolding reconcile_proxies list_proxies
  pass_world m =
      reconcile_items-world p.now (λ d. p.create_proxy d.client_id (actual_of d))
        (λ a. p.delete_proxy a.client_id a.remote_port) desired_proxy_key proxy_info_key
        (get_desired_proxies s) (list_proxies s) (start_pass w f) (desired-All s m)
      ∙ deletions-eq s m p (values s.proxies) w (actual-All s m)

  pub pass_total :
      IsMirrored s → (reconcile_proxies p s w f).total ≡ count_incomplete (values s.proxies)
  unfolding reconcile_proxies list_proxies
  pass_total m = omega (
    arith,
    reconcile_items-total p.now (λ d. p.create_proxy d.client_id (actual_of d))
        (λ a. p.delete_proxy a.client_id a.remote_port) desired_proxy_key proxy_info_key
        (get_desired_proxies s) (list_proxies s) (start_pass w f),
    outside-All desired_proxy_key (map proxy_info_key (list_proxies s)) (get_desired_proxies s)
        (desired-All s m),
    outside-actual s m (values s.proxies) (actual-All s m),
  )
