-- ===== src/Derive/Names.antt =====
-- The names in the code that the macro writes for named fields: they are made of the fields' names, and
-- stand in one scope, so that a later name can hide an earlier one.
use ractor_wormhole.Prelude.{
  ℕ, suc, Bool, true, false, ◌&&◌, not, Option, none, some, List, [], ◌∷◌, ◌++◌, ◌==◌,
  if◌then◌else◌,
}
use ractor_wormhole.Prelude.Map.{◌=?◌, bytes_eq}
use ractor_wormhole.Outcome.{Bytes}
use ractor_wormhole.Derive.Item.{Field, Fields, unit, tuple, named, Variant}

-- "field_", "len_", "bytes_", "buffer" and "ctx".
abbrev field_prefix : Bytes
field_prefix = 102 ∷ 105 ∷ 101 ∷ 108 ∷ 100 ∷ 95 ∷ []

abbrev len_prefix : Bytes
len_prefix = 108 ∷ 101 ∷ 110 ∷ 95 ∷ []

abbrev bytes_prefix : Bytes
bytes_prefix = 98 ∷ 121 ∷ 116 ∷ 101 ∷ 115 ∷ 95 ∷ []

abbrev buffer_name : Bytes
buffer_name = 98 ∷ 117 ∷ 102 ∷ 102 ∷ 101 ∷ 114 ∷ []

abbrev ctx_name : Bytes
ctx_name = 99 ∷ 116 ∷ 120 ∷ []

-- `format_ident!("field_{field_name}")`, and those with `field_len_` and `field_bytes_`.
abbrev value_ident : Bytes → Bytes
value_ident name = field_prefix ++ name

abbrev len_ident : Bytes → Bytes
len_ident name = field_prefix ++ (len_prefix ++ name)

abbrev bytes_ident : Bytes → Bytes
bytes_ident name = field_prefix ++ (bytes_prefix ++ name)

-- What a name is bound to; a field is known by its place.
pub data Bound : Type 0 where
  value_of : (place : ℕ) → Bound
  length_of bytes_of the_buffer : Bound

abbrev Bindings : Type 0
Bindings = List (Bytes × Bound)

unfoldable is_value : (place : ℕ) → Option Bound → Bool
is_value place (some (value_of other)) = place == other
is_value place _ = false

-- A name stands for what it was bound to last.
unfoldable last_bound : Bytes → Option Bound → Bindings → Option Bound
last_bound name found [] = found
last_bound name found ((bound, what) ∷ more) =
    last_bound name (if bound =? name then some what else found) more

-- The `let`s of `deserialize`, field after field.
unfoldable deserialize_bindings : ℕ → List Bytes → Bindings
deserialize_bindings place [] = []
deserialize_bindings place (name ∷ more) =
    (len_ident name, length_of)
    ∷ (bytes_ident name, bytes_of)
    ∷ (value_ident name, value_of place)
    ∷ deserialize_bindings (suc place) more

-- `#field_name: #ident_field`: each of these names is to stand for its own field's value.
unfoldable values_found : ℕ → List Bytes → Bindings → Bool
unfolding last_bound is_value
values_found place [] bindings = true
values_found place (name ∷ more) bindings =
    is_value place (last_bound (value_ident name) none bindings)
    && values_found (suc place) more bindings

unfoldable pub deserialize_resolves : List Bytes → Bool
unfolding values_found deserialize_bindings
deserialize_resolves names = values_found 0 names (deserialize_bindings 0 names)

-- `#enum_name::#variant_name { #(#field_names),* }`
unfoldable pattern_bindings : ℕ → List Bytes → Bindings
pattern_bindings place [] = []
pattern_bindings place (name ∷ more) = (name, value_of place) ∷ pattern_bindings (suc place) more

-- The `let`s of `serialize` in a variant's arm: before each the field's own name is used.
unfoldable arm_resolves : ℕ → List Bytes → Bindings → Bool
unfolding last_bound is_value
arm_resolves place [] bindings = true
arm_resolves place (name ∷ more) bindings =
    is_value place (last_bound name none bindings)
    && arm_resolves (suc place) more (bindings ++ (bytes_ident name, bytes_of) ∷ [])

unfoldable no_ctx : List Bytes → Bool
no_ctx [] = true
no_ctx (name ∷ more) = not (name =? ctx_name) && no_ctx more

-- The arm begins with `let mut buffer`, and each step uses `ctx`.
unfoldable pub serialize_resolves : List Bytes → Bool
unfolding arm_resolves pattern_bindings no_ctx
serialize_resolves names =
    no_ctx names
    && arm_resolves 0 names (pattern_bindings 0 names ++ (buffer_name, the_buffer) ∷ [])

module _ {S : Type 0} where
  abbrev pub names_of : List (Field S) → List Bytes
  names_of [] = []
  names_of (f ∷ fs) = f.name ∷ names_of fs

  -- The names of a tuple's code carry the places, and no two are the same.
  unfoldable pub struct_resolves : Fields S → Bool
  unfolding deserialize_resolves
  struct_resolves unit = true
  struct_resolves (tuple fs) = true
  struct_resolves (named fs) = deserialize_resolves (names_of fs)

  unfoldable pub variant_resolves : Fields S → Bool
  unfolding deserialize_resolves serialize_resolves
  variant_resolves unit = true
  variant_resolves (tuple fs) = true
  variant_resolves (named fs) =
      serialize_resolves (names_of fs) && deserialize_resolves (names_of fs)

  unfoldable pub variants_resolve : List (Variant S) → Bool
  unfolding variant_resolves
  variants_resolve [] = true
  variants_resolve (v ∷ vs) = variant_resolves v.fields && variants_resolve vs
