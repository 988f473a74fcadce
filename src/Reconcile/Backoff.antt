-- ===== src/Reconcile/Backoff.antt =====
-- BBgrid_Server/runtime/reconcile.go: the bookkeeping of failures and the time to wait after them.
-- A duration is its number of nanoseconds in an int64.
pub mod Laws
use bbgrid.Prelude.{
  ℕ, zero, suc, ◌+◌, ◌-◌, ◌*◌, ◌^◌, ◌≤◌, Bool, true, false, Option, none, some, Text, ℤ, pos, ◌-ℤ◌,
  ltb, ltb_ℤ, signed, if◌then◌else◌, text_key,
}
use bbgrid.GoMap.{GoMap, get, put, delete}

-- `proxyFailCount` and `proxyFailTime`, or `relayFailCount` and `relayFailTime`.
pub record Failures : Type 0 where
  pub count : GoMap Text ℕ
  pub time : GoMap Text ℤ

abbrev pub fail_count : Failures → Text → ℕ
fail_count f key = elim (get f.count key) [ none ↦ 0 | some n ↦ n ]

abbrev pub base_delay : ℕ
base_delay = 30_000_000_000

abbrev pub max_delay : ℕ
max_delay = 600_000_000_000

-- `time.Duration(1<<uint(failCount-1)) * 30 * time.Second`, cut to ten minutes. The product is that
-- of int64: it wraps.
unfoldable pub backoff : ℕ → ℤ
unfolding signed
backoff fail_count =
    let delay = signed 63 (2 ^ (fail_count - 1) * base_delay) in
    if ltb_ℤ (pos max_delay) delay then pos max_delay else delay

-- `time.Since`; for the zero time of a missing entry it is the greatest duration
abbrev pub since : ℤ → Option ℤ → ℤ
since now none = pos (2 ^ 63 - 1)
since now (some t) = now -ℤ t

-- Whether the pass leaves the item out because it failed a short time ago.
unfoldable pub in_backoff : Failures → Text → ℤ → Bool
unfolding ◌-ℤ◌
in_backoff f key now =
    if ltb 0 (fail_count f key)
    then ltb_ℤ (since now (get f.time key)) (backoff (fail_count f key))
    else false

unfoldable pub record_failure : Failures → Text → ℤ → Failures
record_failure f key now = record {
  count = put f.count key (fail_count f key + 1);
  time = put f.time key now;
}

unfoldable pub forget : Failures → Text → Failures
forget f key = record { count = delete f.count key; time = delete f.time key }
