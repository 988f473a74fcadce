-- ===== src/Storage/Meta.antt =====
-- common/store/meta.go: resources by type and name. The file of a type is given in `files` by the values
-- whose JSON it holds; `reread` is encoding/json, what comes back of a value that was encoded: a
-- struct is read back as a map and an integer as a float. Whether a `saveType` reaches its rename is
-- an argument, and one that does not leaves the old file.
pub mod Laws
use bbgrid.Prelude.{
  ℕ, Bool, true, false, Option, none, some, List, [], ◌∷◌, Text, text_key, length, if◌then◌else◌,
}
use bbgrid.GoMap.{GoMap, get, put, delete}
use bbgrid.Types.{ResourceKey}
use bbgrid.ResourceKey.{key_string}

pub record MetaStore (R : Type 0) : Type 0 where
  pub resources : GoMap Text (GoMap Text R)
  pub files : GoMap Text (GoMap Text R)

module _ {R : Type 0} where
  -- The map of a type; a missing one is nil, which reads like an empty one.
  abbrev pub of_type : Option (GoMap Text R) → GoMap Text R
  of_type none = []
  of_type (some m) = m

  -- `saveType`, where the values of the type can be encoded: the new state and whether it succeeded
  unfoldable pub save_type : MetaStore R → Text → Bool → MetaStore R × Bool
  save_type s t renamed =
      if renamed
      then (record s { files = put s.files t (of_type (get s.resources t)) }, true)
      else (s, false)

  abbrev pub set_type : MetaStore R → Text → GoMap Text R → MetaStore R
  set_type s t m = record s { resources = put s.resources t m }

  -- `Put`
  unfoldable pub put_resource : MetaStore R → ResourceKey → R → Bool → MetaStore R × Bool
  unfolding save_type
  put_resource s k r renamed =
      save_type (set_type s k.type (put (of_type (get s.resources k.type)) (key_string k) r)) k.type
        renamed

  unfoldable pub lookup_in : Option (GoMap Text R) → ResourceKey → Option R
  lookup_in none k = none
  lookup_in (some m) k = get m (key_string k)

  -- `Get`
  unfoldable pub get_resource : MetaStore R → ResourceKey → Option R
  unfolding lookup_in
  get_resource s k = lookup_in (get s.resources k.type) k

  unfoldable pub delete_in :
      MetaStore R → ResourceKey → Bool → Option (GoMap Text R) → MetaStore R × Bool
  unfolding save_type
  delete_in s k renamed none = (s, true)
  delete_in s k renamed (some m) =
      save_type (set_type s k.type (delete m (key_string k))) k.type renamed

  -- `Delete`
  unfoldable pub delete_resource : MetaStore R → ResourceKey → Bool → MetaStore R × Bool
  unfolding delete_in
  delete_resource s k renamed = delete_in s k renamed (get s.resources k.type)

  -- `List`, `ListAll` and `Count`
  abbrev pub list_type : MetaStore R → Text → Option (GoMap Text R)
  list_type s t = get s.resources t

  abbrev pub list_all : MetaStore R → GoMap Text (GoMap Text R)
  list_all s = s.resources

  abbrev pub count_type : MetaStore R → Text → ℕ
  count_type s t = length (of_type (get s.resources t))

  abbrev reread_type : (R → R) → GoMap Text R → GoMap Text R
  reread_type reread [] = []
  reread_type reread ((k, r) ∷ m) = (k, reread r) ∷ reread_type reread m

  abbrev reread_files : (R → R) → GoMap Text (GoMap Text R) → GoMap Text (GoMap Text R)
  reread_files reread [] = []
  reread_files reread ((t, m) ∷ types) = (t, reread_type reread m) ∷ reread_files reread types

  -- `loadAll`, where every file can be read
  abbrev pub load_all : (R → R) → GoMap Text (GoMap Text R) → MetaStore R
  load_all reread files = record { resources = reread_files reread files; files = files }

  -- `Close`: the first type that cannot be saved ends it.
  unfoldable pub save_types :
      MetaStore R → GoMap Text (GoMap Text R) → List Bool → MetaStore R × Bool
  unfolding save_type
  save_types s [] renamed = (s, true)
  save_types s ((t, m) ∷ types) [] = (s, true)
  save_types s ((t, m) ∷ types) (r ∷ renamed) =
      let rest = save_types (save_type s t r).0 types renamed in
      if r then rest else ((save_type s t r).0, false)

  abbrev pub close_meta : MetaStore R → List Bool → MetaStore R × Bool
  close_meta s renamed = save_types s s.resources renamed
