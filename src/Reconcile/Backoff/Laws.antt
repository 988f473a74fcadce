-- ===== src/Reconcile/Backoff/Laws.antt =====
-- The waiting time of BBgrid_Server/runtime/reconcile.go after a number of failures.
use bbgrid.Prelude.{
  ℕ, zero, suc, ◌+◌, ◌-◌, ◌*◌, ◌^◌, ◌%◌, ◌≤◌, ◌<◌, ◌≡◌, refl, ◌∙◌, min, Bool, true, false, ◌&&◌,
  some, Text, ℤ, pos, ◌-ℤ◌, ◌<ℤ◌, ltb, ltb_ℤ, int_eq, int_eq_iff, nat_eq, nat_eq_iff, Bool-cases,
  inl, inr, signed, text_key, arith, ==_refl,
}
use native.Mathlib.Nat.{add-zero, pow-suc}
use bbgrid.GoMap.{get, get-put, get-delete}
use bbgrid.Reconcile.Backoff.{
  Failures, fail_count, base_delay, max_delay, backoff, since, in_backoff, record_failure, forget,
}

both : (a b : Bool) → a && b ≡ true → (a ≡ true) × (b ≡ true)
both a b h = (ground arith, ground arith)

abbrev is_scheduled : ℕ → Bool
is_scheduled k = int_eq (backoff (suc k)) (pos (min (2 ^ k * base_delay) max_delay))

-- The first `n` waits follow the schedule.
schedule_holds : ℕ → Bool
schedule_holds zero = true
schedule_holds (suc k) = schedule_holds k && is_scheduled k

schedule_table : schedule_holds 29 ≡ true
unfolding schedule_holds backoff
schedule_table = refl

schedule_holds-is_scheduled : (k n : ℕ) → k < n → schedule_holds n ≡ true → is_scheduled k ≡ true
unfolding schedule_holds
schedule_holds-is_scheduled k zero l h = absurd (omega arith)
schedule_holds-is_scheduled k (suc n) l h = elim (Bool-cases (nat_eq k n)) [
  | inl last ↦ rw ((nat_eq_iff k n).0 last) ((both (schedule_holds n) (is_scheduled n) h).1)
  | inr before ↦
      schedule_holds-is_scheduled k n (ground arith)
        ((both (schedule_holds n) (is_scheduled n) h).0)
]

-- After the first 29 failures in a row the wait is 30 s, doubled each time, and ten minutes at most.
pub backoff_schedule : (k : ℕ) → k < 29 → backoff (suc k) ≡ pos (min (2 ^ k * base_delay) max_delay)
backoff_schedule k h = (int_eq_iff _ _).0 (schedule_holds-is_scheduled k 29 h schedule_table)

pow_add : (a m : ℕ) → 2 ^ (a + m) ≡ 2 ^ m * 2 ^ a
pow_add a zero = rw (add-zero a) (omega arith)
pow_add a (suc m) =
    let e : a + suc m ≡ suc (a + m) = omega arith in
    rw (e, pow-suc 2 (a + m), pow-suc 2 m) (omega (arith, pow_add a m))

-- A multiple of the modulus leaves nothing in the word.
wraps_to_zero : (x : ℕ) → signed 63 (x * 2 ^ 54 * base_delay) ≡ pos 0
unfolding signed
wraps_to_zero x = let e : (x * 2 ^ 54 * base_delay) % 2 ^ 64 ≡ 0 = omega arith in rw (e, signed)

-- From the 55th failure in a row on, the product wraps to nothing and there is no wait at all.
pub backoff_wraps : (n : ℕ) → 55 ≤ n → backoff n ≡ pos 0
unfolding backoff
backoff_wraps n h =
    let e : n - 1 ≡ 54 + (n - 55) = omega arith in
    rw (e, pow_add 54 (n - 55), wraps_to_zero (2 ^ (n - 55)))

-- Nor is there one after 30 failures: the product is negative.
pub backoff_negative : backoff 30 <ℤ pos 0
unfolding backoff
backoff_negative = omega arith

pub fail_count-record_failure :
    (f : Failures) (key : Text) (t : ℤ)
    → fail_count (record_failure f key t) key ≡ suc (fail_count f key)
unfolding record_failure
fail_count-record_failure f key t =
    ground (arith, get-put f.count key key (fail_count f key + 1), ==_refl {K = Text} key)

time-record_failure :
    (f : Failures) (key : Text) (t : ℤ) → get (record_failure f key t).time key ≡ some t
unfolding record_failure
time-record_failure f key t = rw (get-put f.time key key t, ==_refl {K = Text} key)

pub fail_count-forget : (f : Failures) (key : Text) → fail_count (forget f key) key ≡ 0
unfolding forget
fail_count-forget f key = ground (arith, get-delete f.count key key, ==_refl {K = Text} key)

elapsed_lt : (now t b : ℕ) → ltb_ℤ (pos now -ℤ pos t) (pos b) ≡ ltb now (t + b)
unfolding ◌-ℤ◌
elapsed_lt now t b = ground arith

in_backoff_lem :
    (f : Failures) (key : Text) (now : ℤ) (k : ℕ)
    → fail_count f key ≡ suc k
    → in_backoff f key now ≡ ltb_ℤ (since now (get f.time key)) (backoff (suc k))
unfolding in_backoff
in_backoff_lem f key now k h = rw h (ground arith)

-- After a failure at `t`, with at most 28 failures before it, the item is left out of every pass that
-- starts earlier than the scheduled wait after `t`, and taken up again from then on.
pub in_backoff-record_failure :
    (f : Failures) (key : Text) (t now : ℕ)
    → fail_count f key < 29
    → in_backoff (record_failure f key (pos t)) key (pos now)
      ≡ ltb now (t + min (2 ^ fail_count f key * base_delay) max_delay)
in_backoff-record_failure f key t now h =
    in_backoff_lem (record_failure f key (pos t)) key (pos now) (fail_count f key)
      (fail_count-record_failure f key (pos t))
    ∙ rw (time-record_failure f key (pos t), backoff_schedule (fail_count f key) h)
        (elapsed_lt now t (min (2 ^ fail_count f key * base_delay) max_delay))

-- An item that was forgotten is not left out.
pub in_backoff-forget :
    (f : Failures) (key : Text) (now : ℤ) → in_backoff (forget f key) key now ≡ false
unfolding in_backoff
in_backoff-forget f key now = ground (arith, fail_count-forget f key)

-- From the 55th failure in a row on the item is never left out, however soon the next pass starts.
pub in_backoff-many_failures :
    (f : Failures) (key : Text) (t now : ℕ)
    → 54 ≤ fail_count f key
    → t ≤ now
    → in_backoff (record_failure f key (pos t)) key (pos now) ≡ false
in_backoff-many_failures f key t now h l =
    in_backoff_lem (record_failure f key (pos t)) key (pos now) (fail_count f key)
      (fail_count-record_failure f key (pos t))
    ∙ rw (time-record_failure f key (pos t), backoff_wraps (suc (fail_count f key)) (omega arith))
        (elapsed_lt now t 0 ∙ (ground arith))
