-- ===== src/Reconcile/Convergence.antt =====
-- BBgrid_Server/runtime/reconcile.go with BBgrid_Server/runtime/provider.go: two passes in a row, of which
-- the first has its events applied to the store before the second.
use bbgrid.Prelude.{
  ◌≡◌, refl, sym, ap, ◌∙◌, Bool, true, false, some, none, List, [], ◌∷◌, ◌++◌, map, Text, ℤ, ◌==◌,
  text_key, if◌then◌else◌, arith, All, Bool-cases, inl, inr, ==_refl,
}
use mathlib.Core.List.{append_assoc, append-nil}
use bbgrid.GoMap.{GoMap, get, get-delete, values, values-All}
use bbgrid.GoText.{codes}
use bbgrid.Types.{ProxyState, deleted, GenericEvent}
use bbgrid.StateStore.{StateStore, new_state_store}
use bbgrid.StateStore.Apply.{desired_of, apply, apply_proxy_event, remove_proxy, replay, handled_at}
use bbgrid.StateStore.Frame.{replay_induction}
use bbgrid.StateStore.Index.{IsIndexed, Keyed, apply-IsIndexed, new_state_store-IsIndexed}
use bbgrid.StateStore.Mirror.{IsMirrored, apply-IsMirrored, replay-IsMirrored}
use bbgrid.StateStore.Restore.{is_incomplete}
use bbgrid.Reconcile.Backoff.{Failures}
use bbgrid.Reconcile.{contains, reconcile_proxies}
use bbgrid.Reconcile.EventBusProvider.{Publications, event_bus_provider}
use bbgrid.Reconcile.Store.{state_key, delete_incomplete, count_incomplete, pass_total, pass_world}

abbrev incomplete_keys : List ProxyState → List Text
incomplete_keys [] = []
incomplete_keys (q ∷ qs) =
    if is_incomplete (desired_of q) then state_key q ∷ incomplete_keys qs else incomplete_keys qs

abbrev IsDeletion : GenericEvent → Type 0
IsDeletion e = (e.resource.type ≡ codes "proxy") × (e.event_type ≡ deleted)

abbrev names : List GenericEvent → List Text
names es = map (λ e. e.resource.name) es

-- A pass publishes one deletion for each incomplete proxy.
published :
    (qs : List ProxyState) (w : Publications)
    → (es : List GenericEvent) × ((delete_incomplete event_bus_provider qs w).published
        ≡ w.published ++ es)
      × (names es ≡ incomplete_keys qs)
      × All IsDeletion es
published [] w = ([], sym (append-nil w.published), refl, tt)
published (q ∷ qs) w =
    let next = (event_bus_provider.delete_proxy q.client_id q.remote_port w).1 in
    let calls =
      λ (b : Bool). (delete_incomplete event_bus_provider qs (if b then next else w)).published in
    elim (Bool-cases (is_incomplete (desired_of q))) [
      | inl e ↦
          let (es, p, n, d) = published qs next in
          (
            _ ∷ es,
            ap calls e ∙ (p ∙ append_assoc w.published _ es),
            rw e (ap (◌∷◌ (state_key q)) n),
            ((refl, refl), d),
          )
      | inr e ↦ let (es, p, n, d) = published qs w in (es, ap calls e ∙ p, rw e n, d)
    ]

deletion :
    (t : StateStore) (e : GenericEvent) (now : ℤ) (k : Text)
    → IsDeletion e
    → get (apply t e now).proxies k ≡ (if e.resource.name == k then none else get t.proxies k)
unfolding apply apply_proxy_event remove_proxy
deletion t e now k (type, d) = rw (type, d) (get-delete t.proxies e.resource.name k)

-- The deletions take out the proxies under their names.
replay-deletion :
    (t : StateStore) (at : GenericEvent → ℤ) (es : List GenericEvent) (k : Text)
    → All IsDeletion es
    → get (replay t (handled_at at es)).proxies k
      ≡ (if contains k (names es) then none else get t.proxies k)
unfolding replay contains
replay-deletion t at [] k d = refl
replay-deletion t at (e ∷ es) k (d, ds) =
    replay-deletion (apply t e (at e)) at es k ds ∙ rw (deletion t e (at e) k d) (ground arith)

contains-incomplete_keys :
    (m : GoMap Text ProxyState) (k : Text) (p : ProxyState)
    → get m k ≡ some p
    → is_incomplete (desired_of p) ≡ true
    → contains (state_key p) (incomplete_keys (values m)) ≡ true
unfolding contains get
contains-incomplete_keys [] k p h i = cc
contains-incomplete_keys ((j, q) ∷ m) k p h i =
    ground (arith, contains-incomplete_keys m k p, ==_refl {K = Text} (state_key p))

count_complete :
    (qs : List ProxyState)
    → All (λ p. is_incomplete (desired_of p) ≡ false) qs
    → count_incomplete qs ≡ 0
count_complete [] h = refl
count_complete (q ∷ qs) (c, h) = rw c (omega (arith, count_complete qs h))

-- Once these deletions are handled, every proxy is complete.
complete :
    (s : StateStore) (es : List GenericEvent) (at : GenericEvent → ℤ)
    → Keyed s.proxies
    → names es ≡ incomplete_keys (values s.proxies)
    → All IsDeletion es
    → (k : Text) (p : ProxyState) → get (replay s (handled_at at es)).proxies k ≡ some p
    → is_incomplete (desired_of p) ≡ false
complete s es at keyed n d k p found = elim (Bool-cases (contains k (names es))) [
  | inl gone ↦
      let absent : get (replay s (handled_at at es)).proxies k ≡ none =
        replay-deletion s at es k d ∙ rw gone refl in
      absurd (cc)
  | inr kept ↦
      let before : get s.proxies k ≡ some p =
        sym (replay-deletion s at es k d ∙ rw kept refl) ∙ found in
      elim (Bool-cases (is_incomplete (desired_of p))) [
        | inr c ↦ c
        | inl i ↦
            let listed = contains-incomplete_keys s.proxies k p before i in
            let own = keyed k p before in
            let name : contains (state_key p) (names es) ≡ true =
              ap (contains (state_key p)) n ∙ listed in
            absurd (cc)
      ]
]

-- Whatever the store has handled before, once it has handled all that a pass publishes, each event at
-- some time, the next pass finds nothing to do: it counts no proxy to create or to delete.
pub reconcile_proxies-converges :
    (ip : Text) (es : List (GenericEvent × ℤ)) (w : Publications) (f g : Failures)
    (at : GenericEvent → ℤ)
    → w.published ≡ []
    → let s = replay (new_state_store ip) es in
      let first = reconcile_proxies event_bus_provider s w f in
      let t = replay s (handled_at at first.world.published) in
      (reconcile_proxies event_bus_provider t first.world g).total ≡ 0
reconcile_proxies-converges ip es w f g at fresh =
    let s = replay (new_state_store ip) es in
    let m = replay-IsMirrored ip es in
    let first = reconcile_proxies event_bus_provider s w f in
    let (evs, p, n, d) = published (values s.proxies) w in
    let own =
      replay_induction IsIndexed apply-IsIndexed (new_state_store ip) es
        (new_state_store-IsIndexed ip) in
    let out : first.world.published ≡ evs =
      ap (λ (v : Publications). v.published) (pass_world event_bus_provider s w f m)
      ∙ (p ∙ ap (λ xs. xs ++ evs) fresh) in
    let t = replay s (handled_at at evs) in
    let mirrored = replay_induction IsMirrored apply-IsMirrored s (handled_at at evs) m in
    let clean = count_complete (values t.proxies) (
      values-All (λ q. is_incomplete (desired_of q) ≡ false) t.proxies mirrored.proxies.unique
        (complete s evs at own.keyed n d)) in
    rw out (pass_total event_bus_provider t first.world g mirrored ∙ clean)
