-- ===== src/Storage/Meta/Laws.antt =====
-- common/store/meta.go: what a lookup finds, before and after a restart.
use bbgrid.Prelude.{
  ◌≡◌, refl, sym, ap, ◌∙◌, Bool, true, false, ◌&&◌, Option, none, some, List, [], ◌∷◌, Text, ◌==◌,
  text_key, text_eq_iff, if◌then◌else◌, Bool-cases, inl, inr, arith, ==_refl,
}
use bbgrid.GoMap.{GoMap, get, put, delete, get-put}
use bbgrid.Types.{ResourceKey}
use bbgrid.ResourceKey.{key_string}
use bbgrid.Storage.Meta.{
  MetaStore, of_type, save_type, set_type, put_resource, lookup_in, get_resource, delete_in,
  delete_resource, reread_type, reread_files, load_all,
}

-- Both keys name one entry: they have one type and one text.
abbrev pub same_entry : ResourceKey → ResourceKey → Bool
same_entry k j = k.type == j.type && key_string k == key_string j

module _ {R : Type 0} where
  -- What a lookup that names a type and a text finds.
  abbrev find : GoMap Text (GoMap Text R) → Text → Text → Option R
  find m t name = get (of_type (get m t)) name

  lookup_in-of_type :
      (o : Option (GoMap Text R)) (k : ResourceKey) → lookup_in o k ≡ get (of_type o) (key_string k)
  unfolding lookup_in get
  lookup_in-of_type none k = refl
  lookup_in-of_type (some m) k = refl

  find-put :
      (m : GoMap Text (GoMap Text R)) (t u name : Text) (n : GoMap Text R)
      → find (put m t n) u name ≡ (if t == u then get n name else find m u name)
  find-put m t u name n = elim (Bool-cases (t == u)) [
    | inl p ↦ rw (get-put m t u n, p) refl
    | inr p ↦ rw (get-put m t u n, p) refl
  ]

  save_type-resources :
      (s : MetaStore R) (t : Text) (renamed : Bool)
      → (save_type s t renamed).0.resources ≡ s.resources
  unfolding save_type
  save_type-resources s t true = refl
  save_type-resources s t false = refl

  in_type :
      (m : GoMap Text (GoMap Text R)) (k j : ResourceKey) (n : GoMap Text R) (v : Option R)
      → ((name : Text) → get n name ≡ (if key_string k == name then v else find m k.type name))
      → find (put m k.type n) j.type (key_string j)
        ≡ (if same_entry k j then v else find m j.type (key_string j))
  in_type m k j n v h = elim (Bool-cases (k.type == j.type)) [
    | inl p ↦
        let same : find m k.type (key_string j) ≡ find m j.type (key_string j) =
          ap (λ (t : Text). find m t (key_string j)) ((text_eq_iff k.type j.type).0 p) in
        find-put m k.type j.type (key_string j) n ∙ simp p (h (key_string j) ∙ rw same refl)
    | inr p ↦ find-put m k.type j.type (key_string j) n ∙ simp p refl
  ]

  get_resource_lem :
      (s : MetaStore R) (k : ResourceKey)
      → get_resource s k ≡ find s.resources k.type (key_string k)
  unfolding get_resource
  get_resource_lem s k = lookup_in-of_type (get s.resources k.type) k

  -- After `Put` the entry that the key names holds the resource and every other entry is as before,
  -- also where the file could not be written and an error is returned.
  get_resource-put_resource :
      (s : MetaStore R) (k j : ResourceKey) (r : R) (renamed : Bool)
      → get_resource (put_resource s k r renamed).0 j
        ≡ (if same_entry k j then some r else get_resource s j)
  unfolding put_resource
  get_resource-put_resource s k j r renamed =
      let n = put (of_type (get s.resources k.type)) (key_string k) r in
      get_resource_lem (put_resource s k r renamed).0 j
      ∙ ap (λ (m : GoMap Text (GoMap Text R)). find m j.type (key_string j))
          (save_type-resources (set_type s k.type n) k.type renamed)
      ∙ in_type s.resources k j n (some r)
          (λ name. get-put (of_type (get s.resources k.type)) (key_string k) name r)
      ∙ ap (λ (o : Option R). if same_entry k j then some r else o) (sym (get_resource_lem s j))

  abbrev pub reread_of : (R → R) → Option R → Option R
  reread_of reread none = none
  reread_of reread (some r) = some (reread r)

  -- A type of which the file is read back as what the memory holds would be.
  abbrev pub IsSaved : (R → R) → Text → MetaStore R → Type 0
  IsSaved f t s =
      (name : Text) → reread_of f (find s.files t name) ≡ reread_of f (find s.resources t name)

  get-reread_type :
      (f : R → R) (m : GoMap Text R) (name : Text)
      → get (reread_type f m) name ≡ reread_of f (get m name)
  unfolding get
  get-reread_type f [] name = refl
  get-reread_type f ((k, r) ∷ m) name = elim (Bool-cases (k == name)) [
    | inl p ↦ rw p refl
    | inr p ↦ rw p (get-reread_type f m name)
  ]

  find-reread_files :
      (f : R → R) (files : GoMap Text (GoMap Text R)) (t name : Text)
      → find (reread_files f files) t name ≡ reread_of f (find files t name)
  unfolding get
  find-reread_files f [] t name = refl
  find-reread_files f ((u, m) ∷ files) t name = elim (Bool-cases (u == t)) [
    | inl p ↦ rw p (get-reread_type f m name)
    | inr p ↦ rw p (find-reread_files f files t name)
  ]

  reread_twice :
      (f : R → R) (o : Option R)
      → ((r : R) → f (f r) ≡ f r)
      → reread_of f (reread_of f o) ≡ reread_of f o
  reread_twice f none stable = refl
  reread_twice f (some r) stable = ap some (stable r)

  load_all-IsSaved :
      (f : R → R) (files : GoMap Text (GoMap Text R)) (t : Text)
      → ((r : R) → f (f r) ≡ f r)
      → IsSaved f t (load_all f files)
  load_all-IsSaved f files t stable name =
      sym (reread_twice f (find files t name) stable)
      ∙ ap (reread_of f) (sym (find-reread_files f files t name))

  save_type-IsSaved : (f : R → R) (s : MetaStore R) (t : Text) → IsSaved f t (save_type s t true).0
  unfolding save_type
  save_type-IsSaved f s t name =
      ap (reread_of f)
        (find-put s.files t t name (of_type (get s.resources t)) ∙ rw (==_refl t) refl)

  -- Saving one type leaves another as it was, on the disk and in memory.
  other_type :
      (f : R → R) (s : MetaStore R) (t u : Text) (m : GoMap Text R) (renamed : Bool)
      → (t == u) ≡ false
      → IsSaved f u s
      → IsSaved f u (save_type (set_type s t m) t renamed).0
  unfolding save_type
  other_type f s t u m true p h name =
      ap (reread_of f) (find-put s.files t u name _ ∙ rw p refl)
      ∙ h name
      ∙ ap (reread_of f) (sym (find-put s.resources t u name m ∙ rw p refl))
  other_type f s t u m false p h name =
      h name ∙ ap (reread_of f) (sym (find-put s.resources t u name m ∙ rw p refl))

  changed-IsSaved :
      (f : R → R) (s : MetaStore R) (t u : Text) (m : GoMap Text R) (renamed clean : Bool)
      → (if t == u then renamed else clean) ≡ true
      → (clean ≡ true → IsSaved f u s)
      → IsSaved f u (save_type (set_type s t m) t renamed).0
  changed-IsSaved f s t u m renamed clean h w = elim (Bool-cases (t == u)) [
    | inl p ↦
        let done : renamed ≡ true = sym (rw p refl) ∙ h in
        rw (done, (text_eq_iff t u).0 p) (save_type-IsSaved f (set_type s u m) u)
    | inr p ↦ other_type f s t u m renamed p (w (sym (rw p refl) ∙ h))
  ]

-- A change of the store, with whether its save gets to the rename.
pub data Change (R : Type 0) : Type 0 where
  puts : ResourceKey → R → Bool → Change R
  deletes : ResourceKey → Bool → Change R

module _ {R : Type 0} where
  unfoldable pub change : MetaStore R → Change R → MetaStore R
  unfolding put_resource delete_resource
  change s (puts k r renamed) = (put_resource s k r renamed).0
  change s (deletes k renamed) = (delete_resource s k renamed).0

  unfoldable pub changes : MetaStore R → List (Change R) → MetaStore R
  unfolding change
  changes s [] = s
  changes s (c ∷ cs) = changes (change s c) cs

  -- Whether the file of a type is known to be up to date: the last `Put` of the type was saved, and so
  -- was every `Delete` of the type since.
  abbrev pub up_to_date : Text → Bool → List (Change R) → Bool
  up_to_date t clean [] = clean
  up_to_date t clean (puts k r renamed ∷ cs) =
      up_to_date t (if k.type == t then renamed else clean) cs
  up_to_date t clean (deletes k renamed ∷ cs) =
      up_to_date t (if k.type == t then clean && renamed else clean) cs

  delete-IsSaved :
      (f : R → R) (s : MetaStore R) (k : ResourceKey) (u : Text) (renamed clean : Bool)
      (o : Option (GoMap Text R))
      → (if k.type == u then clean && renamed else clean) ≡ true
      → (clean ≡ true → IsSaved f u s)
      → IsSaved f u (delete_in s k renamed o).0
  unfolding delete_in
  delete-IsSaved f s k u renamed clean none h w = w (ground arith)
  delete-IsSaved f s k u renamed clean (some m) h w =
      changed-IsSaved f s k.type u (delete m (key_string k)) renamed clean (ground arith) w

  changes-IsSaved :
      (f : R → R) (s : MetaStore R) (cs : List (Change R)) (t : Text) (clean : Bool)
      → up_to_date t clean cs ≡ true
      → (clean ≡ true → IsSaved f t s)
      → IsSaved f t (changes s cs)
  unfolding changes put_resource delete_resource
  changes-IsSaved f s [] t clean h w = w h
  changes-IsSaved f s (puts k r renamed ∷ cs) t clean h w =
      changes-IsSaved f (put_resource s k r renamed).0 cs t (if k.type == t then renamed else clean)
        h (λ e. changed-IsSaved f s k.type t _ renamed clean e w)
  changes-IsSaved f s (deletes k renamed ∷ cs) t clean h w =
      changes-IsSaved f (delete_resource s k renamed).0 cs t
        (if k.type == t then clean && renamed else clean) h
        (λ e. delete-IsSaved f s k t renamed clean (get s.resources k.type) e w)

  -- If JSON gives back unchanged a value that it has given back before: a store that is opened again
  -- finds under a key what JSON gives back of what the old one held there, after any changes of which
  -- some failed to reach the disk, if the last `Put` of the type was saved and every `Delete` of the
  -- type since then was.
  pub get_resource-load_all :
      (f : R → R) (files : GoMap Text (GoMap Text R)) (cs : List (Change R)) (k : ResourceKey)
      → ((r : R) → f (f r) ≡ f r)
      → up_to_date k.type true cs ≡ true
      → get_resource (load_all f (changes (load_all f files) cs).files) k
        ≡ reread_of f (get_resource (changes (load_all f files) cs) k)
  get_resource-load_all f files cs k stable h =
      get_resource_lem (load_all f (changes (load_all f files) cs).files) k
      ∙ find-reread_files f (changes (load_all f files) cs).files k.type (key_string k)
      ∙ changes-IsSaved f (load_all f files) cs k.type true h
          (λ e. load_all-IsSaved f files k.type stable) (key_string k)
      ∙ ap (reread_of f) (sym (get_resource_lem (changes (load_all f files) cs) k))
