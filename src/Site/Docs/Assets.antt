-- ===== src/Site/Docs/Assets.antt =====
-- web/lib/docs.ts and web/app/docs-assets: which files of docs/assets are served.
pub mod Safety
use agentic_warden.Prelude.{
  ℕ, zero, suc, ◌+◌, ◌-◌, ◌*◌, ◌≤◌, ◌<◌, Bool, true, false, not, ◌&&◌, ◌||◌, String, Option, none,
  some, List, [], ◌∷◌, ◌++◌, map, reverse, flat_map, append_assoc, append-nil, Text, units,
  text_beq, text_eq, nat_eq, Equality, ◌==◌, ==_iff, ==_refl, if◌then◌else◌, Bool-cases,
  Option-cases, All, All-append, All-reverse, length, filter, find?, is_empty, first?, last?,
  contains, is_some, get_or, truthy, or_else, split, join, ◌≡◌, ◌≢◌, ◌↔◌, ◌⊎◌, inl, inr, refl, sym,
  ap, ◌∙◌, subst, fun_ext, arith, ltb, leb, Result,
}
use agentic_warden.Prelude.{starts_with, take_while, drop_while}

-- `ASSET_TYPES[ext]`: an own entry, or what every object inherits.
pub data AssetType : Type 0 where
  own : Text → AssetType
  inherited : Text → AssetType

-- The names that an object literal finds on `Object.prototype`.
unfoldable pub prototype_names : List Text
prototype_names =
    units "constructor"
    ∷ units "toString"
    ∷ units "valueOf"
    ∷ units "toLocaleString"
    ∷ units "hasOwnProperty"
    ∷ units "isPrototypeOf"
    ∷ units "propertyIsEnumerable"
    ∷ units "__proto__"
    ∷ units "__defineGetter__"
    ∷ units "__defineSetter__"
    ∷ units "__lookupGetter__"
    ∷ units "__lookupSetter__"
    ∷ []

unfoldable pub asset_types : Text → Option AssetType
unfolding prototype_names
asset_types ext =
    if ext == units "gif"
    then some (own (units "image/gif"))
    else if ext == units "svg"
    then some (own (units "image/svg+xml"))
    else if contains prototype_names ext
    then some (inherited ext)
    else none

-- `file.split(".").pop() ?? ""`
unfoldable pub extension : Text → Text
unfolding split
extension file = get_or (last? (split b'.' file)) []

unfoldable pub asset_type : Text → Option AssetType
unfolding asset_types extension
asset_type file = asset_types (extension file)

abbrev pub slash : ℕ
slash = b'/'

-- `basename` of node:path on POSIX: slashes at the end are dropped, and then all up to a slash.
unfoldable pub basename : Text → Text
unfolding take_while drop_while
basename file =
    reverse (take_while (λ c. not (c == slash)) (drop_while (λ c. c == slash) (reverse file)))

-- `join` of node:path stands as a parameter.
unfoldable pub asset_path : (Text → Text → Text) → Text → Text → Option Text
unfolding basename asset_type
asset_path join_path assets_dir file =
    if not (basename file == file)
      || starts_with file (units ".")
      || not (is_some (asset_type file))
    then none
    else some (join_path assets_dir file)

unfoldable pub asset_files : (Text → Text → Text) → Text → List Text → List Text
unfolding asset_path
asset_files join_path assets_dir entries =
    filter (λ f. is_some (asset_path join_path assets_dir f)) entries

-- The answer of the route.
pub data Response : Type 0 where
  not_found : Response
  served : List ℕ → Option AssetType → Response

-- `GET`; `read` is `readFile`, which may fail.
unfoldable pub get_asset : (Text → Text → Text) → Text → (Text → Option (List ℕ)) → Text → Response
unfolding asset_path asset_type
get_asset join_path assets_dir read file = elim (asset_path join_path assets_dir file) [
  | none ↦ not_found
  | some path ↦ elim (read path) [ none ↦ not_found | some bytes ↦ served bytes (asset_type file) ]
]
