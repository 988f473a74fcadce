-- ===== src/Storage/Snapshots.antt =====
-- common/store/snapshot.go: the files of the snapshots, by name, and the latest one in memory. Whether a
-- save gets to its rename is an argument; one that does not leaves no file.
pub mod Sorting
pub mod Cleanup
use bbgrid.Prelude.{
  ℕ, zero, suc, ◌+◌, ◌-◌, ◌*◌, Bool, true, false, ◌&&◌, Option, none, some, List, [], ◌∷◌, ◌++◌,
  Text, ℤ, pos, ltb_ℤ, ◌-ℤ◌, text_key, length, take, drop, ltb, leb, nat_eq, if◌then◌else◌,
}
use bbgrid.GoText.{codes, format_int}
use bbgrid.GoMap.{GoMap, get, put, delete}
use bbgrid.Types.{Any}

pub record Snapshot : Type 0 where
  pub id : Text
  pub timestamp : ℤ
  pub sequence : ℤ
  pub state : GoMap Text (GoMap Text Any)

pub record SnapshotStore : Type 0 where
  pub files : GoMap Text Snapshot
  pub latest : Option Snapshot

-- `<` on strings, byte by byte
abbrev pub text_lt : Text → Text → Bool
text_lt s [] = false
text_lt [] (y ∷ t) = true
text_lt (x ∷ s) (y ∷ t) = if nat_eq x y then text_lt s t else ltb x y

-- The inner loop of `sortFiles` from one place on: what stands there in the end, and the rest.
unfoldable pub settle : Text → List Text → Text × List Text
settle x [] = (x, [])
settle x (y ∷ ys) =
    let first = if text_lt y x then y else x in
    let second = if text_lt y x then x else y in
    let (least, rest) = settle first ys in (least, second ∷ rest)

-- `sortFiles`, with one unit of fuel for each place
unfoldable pub sort_loop : ℕ → List Text → List Text
unfolding settle
sort_loop zero xs = xs
sort_loop (suc fuel) [] = []
sort_loop (suc fuel) (x ∷ xs) = let (least, rest) = settle x xs in least ∷ sort_loop fuel rest

unfoldable pub sort_files : List Text → List Text
unfolding sort_loop
sort_files xs = sort_loop (length xs) xs

abbrev pub keys : {V : Type 0} → GoMap Text V → List Text
keys [] = []
keys ((k, v) ∷ m) = k ∷ keys m

-- The loop of `os.Remove`, whose error the code does not look at: each removal is taken to succeed.
unfoldable pub remove_files : {V : Type 0} → GoMap Text V → List Text → GoMap Text V
remove_files m [] = m
remove_files m (f ∷ fs) = remove_files (delete m f) fs

-- `cleanupOldSnapshots`; every file of the directory has the suffix that it looks for.
unfoldable pub cleanup : {V : Type 0} → ℕ → GoMap Text V → GoMap Text V
unfolding sort_files remove_files
cleanup keep m =
    let files = keys m in
    if leb (length files) keep
    then m
    else remove_files m (take (length files - keep) (sort_files files))

abbrev pub kept : ℕ
kept = 5

abbrev pub file_name : ℤ → Text
file_name timestamp = format_int timestamp ++ codes ".json"

-- `Save`: the new state and whether it succeeded; the identifier and the time are arguments.
unfoldable pub save_snapshot :
    SnapshotStore → Text → ℤ → GoMap Text (GoMap Text Any) → ℤ → Bool → SnapshotStore × Bool
unfolding cleanup
save_snapshot s id now state sequence renamed =
    let snapshot : Snapshot = record {
      id = id;
      timestamp = now;
      sequence = sequence;
      state = state;
    } in
    if renamed
    then (
      record {
        files = cleanup kept (put s.files (file_name now) snapshot);
        latest = some snapshot;
      },
      true,
    )
    else (s, false)

-- `Load`, `HasSnapshot` and `GetSequence`
abbrev pub load_snapshot : SnapshotStore → Option Snapshot
load_snapshot s = s.latest

abbrev pub sequence_of : Option Snapshot → ℤ
sequence_of none = pos 0
sequence_of (some snapshot) = snapshot.sequence

abbrev pub get_sequence : SnapshotStore → ℤ
get_sequence s = sequence_of s.latest

-- `fmt.Sscanf(name, "%d.json", &timestamp)` with what it leaves in `timestamp`
abbrev pub scan_digits : ℕ → Text → ℕ
scan_digits n [] = n
scan_digits n (c ∷ s) =
    let longer = scan_digits (n * 10 + (c - b'0')) s in
    if ltb c b'0' then n else if ltb b'9' c then n else longer

-- The loop of `loadLatest`: the name with the greatest time above `time`.
unfoldable pub latest_file : ℤ → Option Text → List Text → Option Text
latest_file time found [] = found
latest_file time found (f ∷ fs) =
    let t = pos (scan_digits 0 f) in
    latest_file (if ltb_ℤ time t then t else time) (if ltb_ℤ time t then some f else found) fs

unfoldable pub read_file : GoMap Text Snapshot → Option Text → Option Snapshot
read_file files none = none
read_file files (some f) = get files f

-- `NewSnapshotStore` on a directory, where every file can be read
unfoldable pub load_latest : GoMap Text Snapshot → SnapshotStore
unfolding latest_file read_file
load_latest files = record {
  files = files;
  latest = read_file files (latest_file (pos 0) none (keys files));
}
