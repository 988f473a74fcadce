-- ===== src/ResourceKey/Laws.antt =====
-- common/proto/event.go: which keys their text determines.
use bbgrid.Prelude.{◌≡◌, ◌≢◌, refl, false, some, [], ◌∷◌, ◌++◌, Text, nat_eq, ◌==◌, text_key, arith}
use bbgrid.GoText.{Free}
use bbgrid.Types.{ResourceKey}
use bbgrid.ResourceKey.{key_string, cut, parse_parts, parse_rest, parse_resource_key}

cut-append : (s t : Text) → Free b'/' s → cut (s ++ b'/' ∷ t) ≡ (s, some t)
unfolding cut
cut-append [] t h = refl
cut-append (b ∷ bs) t h =
    let other : nat_eq b b'/' ≡ false = ground (arith, h.0) in rw (cut-append bs t h.1, other) refl

is_empty-cons : (s : Text) → s ≢ [] → (s == []) ≡ false
is_empty-cons [] h = absurd (h refl)
is_empty-cons (b ∷ s) h = refl

-- A key with three parts, of which the first two have no slash.
pub record IsComplete (k : ResourceKey) : Type 0 where
  pub some_type : k.type ≢ []
  pub some_namespace : k.namespace ≢ []
  pub some_name : k.name ≢ []
  pub plain_type : Free b'/' k.type
  pub plain_namespace : Free b'/' k.namespace

-- A complete key is read back from its text; its name may hold slashes.
parse_resource_key-key_string :
    (k : ResourceKey) → IsComplete k → parse_resource_key (key_string k) ≡ some k
unfolding parse_resource_key key_string parse_rest parse_parts
parse_resource_key-key_string k h =
    let t = is_empty-cons k.type h.some_type in
    let n = is_empty-cons k.namespace h.some_namespace in
    let m = is_empty-cons k.name h.some_name in
    let first = cut-append k.type (k.namespace ++ b'/' ∷ k.name) h.plain_type in
    let second = cut-append k.namespace k.name h.plain_namespace in simp (n, first, second, t, m)
