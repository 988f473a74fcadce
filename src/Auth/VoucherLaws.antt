-- ===== src/Auth/VoucherLaws.antt =====
-- BBgrid_Server/auth/auth.go: how often a voucher is accepted.
use bbgrid.Prelude.{
  ℕ, suc, ◌+◌, ◌≤◌, ◌<◌, ◌≡◌, refl, sym, subst, Bool, true, false, Option, none, some, List, [],
  ◌∷◌, ◌++◌, Text, ℤ, pos, ◌+ℤ◌, ◌-ℤ◌, ltb_ℤ, not, ◌&&◌, text_key, ◌==◌, arith, if◌then◌else◌,
  Bool-cases, inl, inr, All,
}
use bbgrid.GoText.{codes}
use bbgrid.GoMap.{get, put}
use bbgrid.Auth.Disk.{WriteOutcome, written, not_opened, cut_off, not_closed, write_file, writes}
use bbgrid.Auth.Vouchers.{
  Voucher, VoucherBook, load_vouchers, save_vouchers, create_voucher, is_expired, is_used_up,
  consume_voucher, use_found, use_voucher, drop_voucher, delete_voucher,
}
use bbgrid.Auth.VoucherRuns.{
  VoucherOperation, creates, uses, deletes, reloads, operate, accepts, accepted, accepted_in,
  recreates, tally, tally-accepts,
}
use bbgrid.Auth.VoucherCount.{
  Counted, Tracks, put-AtCode, delete-AtCode, save_vouchers-Tracks, put_same-AtCode,
}

module _ (c : Text) (n : ℕ) where
  -- A call that does not accept the code keeps the count.
  consume_other-Tracks :
      (b : VoucherBook) (code : Text) (k : ℕ) (o : WriteOutcome) (v : Voucher)
      → code == c ≡ false
      → Tracks c n b k
      → Tracks c n (consume_voucher b code o v).0 k
  unfolding consume_voucher save_vouchers
  consume_other-Tracks b code k o v d t =
      let used = record v { used_count = v.used_count +ℤ pos 1 } in
      let first = put-AtCode c n b.vouchers k code used t.memory (λ e. cc) in
      let saved = save_vouchers-Tracks c n b (put b.vouchers code used) k o t first in
      elim (Bool-cases (writes o)) [
        | inl p ↦ rw p saved
        | inr p ↦ rw p (record {
          memory = put-AtCode c n (put b.vouchers code used) k code _ first (λ e. cc);
          file = saved.file;
          within = t.within;
        })
      ]

  not_used_up :
      (v : Voucher) (u : ℕ)
      → v.max_uses ≡ pos n
      → v.used_count ≡ pos u
      → is_used_up v ≡ false
      → 0 < n
      → u < n
  not_used_up v u max count free p =
      let e : (ltb_ℤ (pos 0) (pos n) && not (ltb_ℤ (pos u) (pos n))) ≡ false =
        subst (λ y. (ltb_ℤ (pos 0) (pos n) && not (ltb_ℤ y (pos n))) ≡ false) count
          (subst (λ x. (ltb_ℤ (pos 0) x && not (ltb_ℤ v.used_count x)) ≡ false) max free) in
      ground arith

  plus_one : (u : ℕ) → pos u +ℤ pos 1 ≡ pos (suc u)
  unfolding ◌+ℤ◌
  plus_one u = ground arith

  minus_one : (u : ℕ) → pos (suc u) -ℤ pos 1 ≡ pos u
  unfolding ◌-ℤ◌
  minus_one u = ground arith

  -- The voucher with one more use, and with that use taken back.
  abbrev used_once : Voucher → Voucher
  used_once v = record v { used_count = v.used_count +ℤ pos 1 }

  abbrev restored : Voucher → Voucher
  restored v = record v { used_count = (v.used_count +ℤ pos 1) -ℤ pos 1 }

  used_once-Counted :
      (v : Voucher) (k : ℕ)
      → 0 < n
      → Counted c n k v
      → is_used_up v ≡ false
      → Counted c n (k + 1) (used_once v)
  used_once-Counted v k p (max, u, count, low, high) free = (
    max,
    suc u,
    rw count (plus_one u),
    omega (arith, low),
    omega (arith, not_used_up v u max count free p),
  )

  restored-Counted : (v : Voucher) (k : ℕ) → Counted c n k v → Counted c n k (restored v)
  restored-Counted v k (max, u, count, low, high) =
      (max, u, rw (count, plus_one u) (minus_one u), low, high)

  less-Counted : (v : Voucher) (k : ℕ) → Counted c n (k + 1) v → Counted c n k v
  less-Counted v k (max, u, count, low, high) = (max, u, count, omega (arith, low), high)

  consume_same-Tracks :
      (b : VoucherBook) (k : ℕ) (o : WriteOutcome) (v : Voucher)
      → 0 < n
      → Counted c n k v
      → is_used_up v ≡ false
      → Tracks c n b k
      → Tracks c n (consume_voucher b c o v).0 (tally k (consume_voucher b c o v).1)
  unfolding consume_voucher save_vouchers writes write_file get
  consume_same-Tracks b k written v p h free t =
      let once = used_once-Counted v k p h free in
      let after = put_same-AtCode c n b.vouchers (k + 1) (used_once v) once in
      let (max, u, count, low, high) = once in
      record { memory = after; file = after; within = omega (arith, low, high) }
  consume_same-Tracks b k not_opened v p h free t = record {
    memory = put_same-AtCode c n _ k (restored v) (restored-Counted v k h);
    file = t.file;
    within = t.within;
  }
  consume_same-Tracks b k cut_off v p h free t = record {
    memory = put_same-AtCode c n _ k (restored v) (restored-Counted v k h);
    file = λ w found. cc;
    within = t.within;
  }
  consume_same-Tracks b k not_closed v p h free t = record {
    memory = put_same-AtCode c n _ k (restored v) (restored-Counted v k h);
    file =
        put_same-AtCode c n b.vouchers k (used_once v)
          (less-Counted (used_once v) k (used_once-Counted v k p h free));
    within = t.within;
  }

  use_same-Tracks :
      (b : VoucherBook) (k : ℕ) (now : ℤ) (o : WriteOutcome) (f : Option Voucher)
      → 0 < n
      → get b.vouchers c ≡ f
      → Tracks c n b k
      → Tracks c n (use_found b c now o f).0 (tally k (use_found b c now o f).1)
  unfolding use_found
  use_same-Tracks b k now o none p e t = t
  use_same-Tracks b k now o (some v) p e t = elim (Bool-cases (is_expired v now)) [
    | inl x ↦ rw x t
    | inr x ↦ elim (Bool-cases (is_used_up v)) [
      | inl y ↦ rw (x, y) t
      | inr y ↦ rw (x, y) (consume_same-Tracks b k o v p (t.memory v e) y t)
    ]
  ]

  use_other-Tracks :
      (b : VoucherBook) (code : Text) (k : ℕ) (now : ℤ) (o : WriteOutcome) (f : Option Voucher)
      → code == c ≡ false
      → Tracks c n b k
      → Tracks c n (use_found b code now o f).0 k
  unfolding use_found
  use_other-Tracks b code k now o none d t = t
  use_other-Tracks b code k now o (some v) d t = elim (Bool-cases (is_expired v now)) [
    | inl x ↦ rw x t
    | inr x ↦ elim (Bool-cases (is_used_up v)) [
      | inl y ↦ rw (x, y) t
      | inr y ↦ rw (x, y) (consume_other-Tracks b code k o v d t)
    ]
  ]

  drop_voucher-Tracks :
      (b : VoucherBook) (code : Text) (k : ℕ) (o : WriteOutcome) (f : Option Voucher)
      → Tracks c n b k
      → Tracks c n (drop_voucher b code o f).0 k
  unfolding drop_voucher
  drop_voucher-Tracks b code k o none t = t
  drop_voucher-Tracks b code k o (some v) t =
      save_vouchers-Tracks c n b _ k o t (delete-AtCode c n b.vouchers k code t.memory)

  create_voucher-Tracks :
      (b : VoucherBook) (random : Text) (max expires : ℤ) (name role : Text) (now : ℤ) (k : ℕ)
      (o : WriteOutcome)
      → codes "vch_" ++ random == c ≡ false
      → Tracks c n b k
      → Tracks c n (create_voucher b random max expires name role now o).0 k
  unfolding create_voucher save_vouchers
  create_voucher-Tracks b random max expires name role now k o d t =
      let added = put-AtCode c n b.vouchers k (codes "vch_" ++ random) _ t.memory (λ e. cc) in
      let saved = save_vouchers-Tracks c n b _ k o t added in
      elim (Bool-cases (writes o)) [
        | inl p ↦ rw p saved
        | inr p ↦ rw p (record {
          memory = delete-AtCode c n _ k (codes "vch_" ++ random) added;
          file = saved.file;
          within = t.within;
        })
      ]

  unaccepted : (b : VoucherBook) (k : ℕ) → Tracks c n b k → Tracks c n b (k + 0)
  unaccepted b k t = let zero : k ≡ k + 0 = omega arith in subst (Tracks c n b) zero t

  use_voucher-Tracks :
      (b : VoucherBook) (code : Text) (k : ℕ) (now : ℤ) (o : WriteOutcome) (same : Bool)
      → 0 < n
      → code == c ≡ same
      → Tracks c n b k
      → Tracks c n
          (use_voucher b code now o).0
          (k + (if same then accepts (use_voucher b code now o).1 else 0))
  unfolding use_voucher
  use_voucher-Tracks b code k now o true p e t =
      let it : c ≡ code = sym ((text_key.same_iff code c).0 e) in
      subst (λ x. Tracks c n (use_voucher b x now o).0 (k + accepts (use_voucher b x now o).1)) it
        (subst (Tracks c n (use_voucher b c now o).0) (tally-accepts k (use_voucher b c now o).1)
          (use_same-Tracks b k now o (get b.vouchers c) p refl t))
  use_voucher-Tracks b code k now o false p e t =
      unaccepted _ k (use_other-Tracks b code k now o (get b.vouchers code) e t)

  operate-Tracks :
      (b : VoucherBook) (op : VoucherOperation) (k : ℕ)
      → 0 < n
      → recreates c op ≡ false
      → Tracks c n b k
      → Tracks c n (operate b op) (k + accepted c b op)
  unfolding operate accepted delete_voucher
  operate-Tracks b (creates random max expires name role now o) k p d t =
      unaccepted _ k (create_voucher-Tracks b random max expires name role now k o d t)
  operate-Tracks b (uses code now o) k p d t = elim (Bool-cases (code == c)) [
    | inl e ↦ rw e (use_voucher-Tracks b code k now o true p e t)
    | inr e ↦ rw e (use_voucher-Tracks b code k now o false p e t)
  ]
  operate-Tracks b (deletes code o) k p d t =
      unaccepted _ k (drop_voucher-Tracks b code k o (get b.vouchers code) t)
  operate-Tracks b reloads k p d t =
      unaccepted (load_vouchers b.file) k
        (record { memory = t.file; file = t.file; within = t.within })

  -- A voucher that allows `n` uses, `n` not zero, and counts at least `k` of them, in memory as on the
  -- disk, is accepted at most `n - k` times in any sequence of calls and reloads that does not draw its
  -- code again, whatever the writes leave.
  pub accepted_in-bounded :
      (b : VoucherBook) (ops : List VoucherOperation) (k : ℕ)
      → 0 < n
      → All (λ op. recreates c op ≡ false) ops
      → Tracks c n b k
      → k + accepted_in c b ops ≤ n
  unfolding accepted_in
  accepted_in-bounded b [] k p d t = omega (arith, t.within)
  accepted_in-bounded b (op ∷ ops) k p d t = omega (
    arith,
    accepted_in-bounded (operate b op) ops (k + accepted c b op) p d.1
        (operate-Tracks b op k p d.0 t),
  )

-- A voucher that was just created for `n` uses counts none.
pub create_voucher-fresh :
    (b : VoucherBook) (random : Text) (n : ℕ) (expires : ℤ) (name role : Text) (now : ℤ)
    → Tracks
        (codes "vch_" ++ random)
        n
        (create_voucher b random (pos n) expires name role now written).0
        0
unfolding create_voucher save_vouchers writes write_file
create_voucher-fresh b random n expires name role now =
    let fresh =
      put_same-AtCode (codes "vch_" ++ random) n b.vouchers 0 _
        (refl, 0, refl, omega arith, omega arith) in
    record { memory = fresh; file = fresh; within = omega arith }
