-- ===== src/StateStore/Restore/Laws.antt =====
-- What `Restore` of BBgrid_Server/runtime/statestore.go brings back.
use bbgrid.Prelude.{
  ◌≡◌, refl, ap, ◌∙◌, Option, none, some, [], Text, arith, ◌==◌, text_key, int_key, text_eq_iff,
  if◌then◌else◌, Bool-cases, inl, inr,
}
use bbgrid.GoText.{codes}
use bbgrid.GoMap.{get, get-put}
use bbgrid.Types.{ProxyDesiredState, Any, Fields, nil, field, object}
use bbgrid.StateStore.{StateStore, proxy_key}
use bbgrid.StateStore.Apply.{lookup, desired_of, desired_relay_of}
use bbgrid.StateStore.Restore.{
  snapshot, restore, restore_proxy, restore_proxies, restore_relay, restore_relays,
  desired_from_fields, relay_from_fields, is_incomplete, actual_of, session_of, map_field,
}
use bbgrid.StateStore.Frame.{SameProxies, SameProxies-refl, SameProxies-trans}
use bbgrid.StateStore.Index.{IsIndexed, add_proxy-Agree}
use bbgrid.StateStore.Mirror.{Mirrors, IsMirrored, put-Mirrors}

-- The keys of a Go map are distinct.
abbrev pub Distinct : Fields → Type 0
Distinct nil = Unit {0}
Distinct (field k v fs) = (lookup fs k ≡ none) × Distinct fs

-- The proxy that an entry of the map restores, if it restores one.
abbrev pub restored : Option Any → Option ProxyDesiredState
restored (some (object m)) =
    let d = desired_from_fields m in if is_incomplete d then none else some d
restored _ = none

abbrev pub first_of_two {ℓ} : {A : Type ℓ} → Option A → Option A → Option A
first_of_two none b = b
first_of_two (some a) b = some a

restore_proxy-desired :
    (s : StateStore) (j : Text) (v : Any) (k : Text)
    → get (restore_proxy s j v).desired_proxies k ≡ (
        if j == k
        then first_of_two (restored (some v)) (get s.desired_proxies k)
        else get s.desired_proxies k)
unfolding restore_proxy
restore_proxy-desired s j (object m) k =
    ground (arith, get-put s.desired_proxies j k (desired_from_fields m))
restore_proxy-desired s j _ k = ground arith

restore_proxies-desired :
    (s : StateStore) (fs : Fields) (k : Text)
    → Distinct fs
    → get (restore_proxies s fs).desired_proxies k
      ≡ first_of_two (restored (lookup fs k)) (get s.desired_proxies k)
unfolding restore_proxies lookup
restore_proxies-desired s nil k u = refl
restore_proxies-desired s (field j v fs) k u = ground (
  arith,
  restore_proxies-desired (restore_proxy s j v) fs k u.1,
  restore_proxy-desired s j v k,
  text_eq_iff j k,
)

restore_relay-SameProxies :
    (s : StateStore) (k : Text) (v : Any) → SameProxies s (restore_relay s k v)
unfolding restore_relay
restore_relay-SameProxies s k (object m) = ground arith
restore_relay-SameProxies s k _ = ground arith

restore_relays-SameProxies : (s : StateStore) (fs : Fields) → SameProxies s (restore_relays s fs)
unfolding restore_relays
restore_relays-SameProxies s nil = SameProxies-refl s
restore_relays-SameProxies s (field k v fs) =
    SameProxies-trans (restore_relay-SameProxies s k v)
      (restore_relays-SameProxies (restore_relay s k v) fs)

-- After `Restore` a desired proxy stands under a key exactly as the snapshot has it there: a map with
-- a client and a port wins over what the store held, and every other entry leaves it alone.
restore-desired_proxies :
    (s : StateStore) (saved : Fields) (k : Text)
    → Distinct (map_field (lookup saved (codes "desired_proxies")))
    → get (restore s saved).desired_proxies k
      ≡ first_of_two
          (restored (lookup (map_field (lookup saved (codes "desired_proxies"))) k))
          (get s.desired_proxies k)
unfolding restore
restore-desired_proxies s saved k u =
    let fs = map_field (lookup saved (codes "desired_proxies")) in
    let same =
      restore_relays-SameProxies (restore_proxies s fs)
        (map_field (lookup saved (codes "desired_relays"))) in
    ap (λ m. get m k) same.desired_proxies ∙ restore_proxies-desired s fs k u

restore_proxy-IsIndexed :
    (s : StateStore) (k : Text) (v : Any) → IsIndexed s → IsIndexed (restore_proxy s k v)
unfolding restore_proxy
restore_proxy-IsIndexed s k (object m) h =
    let d = desired_from_fields m in
    elim (Bool-cases (is_incomplete d)) [
      | inl e ↦ rw e h
      | inr e ↦ rw e (add_proxy-Agree s.port_index s.proxies (actual_of d) h)
    ]
restore_proxy-IsIndexed s k _ h = h

restore_proxies-IsIndexed :
    (s : StateStore) (fs : Fields) → IsIndexed s → IsIndexed (restore_proxies s fs)
unfolding restore_proxies
restore_proxies-IsIndexed s nil h = h
restore_proxies-IsIndexed s (field k v fs) h =
    restore_proxies-IsIndexed (restore_proxy s k v) fs (restore_proxy-IsIndexed s k v h)

-- Whatever the snapshot holds, `Restore` keeps the port index and the table of proxies in agreement.
restore-IsIndexed : (s : StateStore) (saved : Fields) → IsIndexed s → IsIndexed (restore s saved)
unfolding restore
restore-IsIndexed s saved h =
    let fs = map_field (lookup saved (codes "desired_proxies")) in
    let same =
      restore_relays-SameProxies (restore_proxies s fs)
        (map_field (lookup saved (codes "desired_relays"))) in
    rw (same.port_index, same.proxies) (restore_proxies-IsIndexed s fs h)

-- An entry stands under the key that the server writes: that of its client and port, or its relay id.
abbrev pub CanonicalProxy : Text → Any → Type 0
CanonicalProxy k (object m) =
    let d = desired_from_fields m in k ≡ proxy_key d.client_id d.remote_port
CanonicalProxy k _ = Unit {0}

abbrev pub CanonicalRelay : Text → Any → Type 0
CanonicalRelay k (object m) = k ≡ (relay_from_fields m).id
CanonicalRelay k _ = Unit {0}

abbrev pub Each : (Text → Any → Type 0) → Fields → Type 0
Each P nil = Unit {0}
Each P (field k v fs) = P k v × Each P fs

restore_proxy-Mirrors :
    (s : StateStore) (k : Text) (v : Any)
    → CanonicalProxy k v
    → Mirrors desired_of s.proxies s.desired_proxies
    → Mirrors desired_of (restore_proxy s k v).proxies (restore_proxy s k v).desired_proxies
unfolding restore_proxy
restore_proxy-Mirrors s k (object m) c h =
    let d = desired_from_fields m in
    elim (Bool-cases (is_incomplete d)) [
      | inl e ↦ rw e h
      | inr e ↦
          rw (e, c)
            (put-Mirrors desired_of _ _ (proxy_key d.client_id d.remote_port) (actual_of d) h)
    ]
restore_proxy-Mirrors s k _ c h = h

restore_relay-Mirrors :
    (s : StateStore) (k : Text) (v : Any)
    → CanonicalRelay k v
    → Mirrors desired_relay_of s.relays s.desired_relays
    → Mirrors desired_relay_of (restore_relay s k v).relays (restore_relay s k v).desired_relays
unfolding restore_relay
restore_relay-Mirrors s k (object m) c h =
    let r = relay_from_fields m in
    elim (Bool-cases (r.id == [])) [
      | inl e ↦ rw e h
      | inr e ↦ rw (e, c) (put-Mirrors desired_relay_of _ _ r.id (session_of r) h)
    ]
restore_relay-Mirrors s k _ c h = h

restore_proxies-Mirrors :
    (s : StateStore) (fs : Fields)
    → Each CanonicalProxy fs
    → Mirrors desired_of s.proxies s.desired_proxies
    → Mirrors desired_of (restore_proxies s fs).proxies (restore_proxies s fs).desired_proxies
unfolding restore_proxies
restore_proxies-Mirrors s nil c h = h
restore_proxies-Mirrors s (field k v fs) c h =
    restore_proxies-Mirrors (restore_proxy s k v) fs c.1 (restore_proxy-Mirrors s k v c.0 h)

restore_relays-Mirrors :
    (s : StateStore) (fs : Fields)
    → Each CanonicalRelay fs
    → Mirrors desired_relay_of s.relays s.desired_relays
    → Mirrors desired_relay_of (restore_relays s fs).relays (restore_relays s fs).desired_relays
unfolding restore_relays
restore_relays-Mirrors s nil c h = h
restore_relays-Mirrors s (field k v fs) c h =
    restore_relays-Mirrors (restore_relay s k v) fs c.1 (restore_relay-Mirrors s k v c.0 h)

-- A state with the same relays, desired and actual.
restore_proxy-relays :
    (s : StateStore) (k : Text) (v : Any)
    → ((restore_proxy s k v).relays ≡ s.relays)
      × ((restore_proxy s k v).desired_relays ≡ s.desired_relays)
unfolding restore_proxy
restore_proxy-relays s k (object m) = ground arith
restore_proxy-relays s k _ = (refl, refl)

restore_proxies-relays :
    (s : StateStore) (fs : Fields)
    → ((restore_proxies s fs).relays ≡ s.relays)
      × ((restore_proxies s fs).desired_relays ≡ s.desired_relays)
unfolding restore_proxies
restore_proxies-relays s nil = (refl, refl)
restore_proxies-relays s (field k v fs) =
    let rest = restore_proxies-relays (restore_proxy s k v) fs in
    let one = restore_proxy-relays s k v in (rest.0 ∙ one.0, rest.1 ∙ one.1)

-- If the snapshot has its entries under the keys that the server writes, then `Restore` brings desired
-- and actual state back together: where they agreed before, they agree after it.
restore-IsMirrored :
    (s : StateStore) (saved : Fields)
    → Each CanonicalProxy (map_field (lookup saved (codes "desired_proxies")))
    → Each CanonicalRelay (map_field (lookup saved (codes "desired_relays")))
    → IsMirrored s
    → IsMirrored (restore s saved)
unfolding restore
restore-IsMirrored s saved c r h =
    let fs = map_field (lookup saved (codes "desired_proxies")) in
    let gs = map_field (lookup saved (codes "desired_relays")) in
    let t = restore_proxies s fs in
    let same = restore_relays-SameProxies t gs in
    let kept = restore_proxies-relays s fs in
    record {
      proxies = rw (same.proxies, same.desired_proxies) (restore_proxies-Mirrors s fs c h.proxies);
      relays = restore_relays-Mirrors t gs r (rw (kept.0, kept.1) h.relays);
    }

-- `Restore` reads nothing from what `Snapshot` returns in the same process: the two maps are of
-- struct types there, which its type assertions refuse.
restore-snapshot : (s t : StateStore) → restore t (snapshot s) ≡ t
unfolding restore snapshot restore_proxies restore_relays lookup
restore-snapshot s t = refl
