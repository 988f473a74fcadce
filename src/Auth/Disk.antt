-- ===== src/Auth/Disk.antt =====
-- BBgrid_Server/auth/auth.go: what os.WriteFile leaves of a file that holds one JSON value. A value that
-- was cut off does not decode, and then loading keeps the empty map.
use bbgrid.Prelude.{Bool, true, false, Option, none, some, List, []}

pub data WriteOutcome : Type 0 where
  written : WriteOutcome
  not_opened : WriteOutcome
  cut_off : WriteOutcome
  -- all of it was written, and the closing failed
  not_closed : WriteOutcome

unfoldable pub write_file {ℓ} : {A : Type ℓ} → Option A → A → WriteOutcome → Option A
write_file old new written = some new
write_file old new not_opened = old
write_file old new cut_off = none
write_file old new not_closed = some new

-- Whether `os.WriteFile` returns no error.
unfoldable pub writes : WriteOutcome → Bool
writes written = true
writes not_opened = false
writes cut_off = false
writes not_closed = false

abbrev pub loaded {ℓ} : {A : Type ℓ} → Option (List A) → List A
loaded none = []
loaded (some m) = m
