-- ===== src/Units.antt =====
-- Who sees which business unit: src/common/auth/hq-role.enum.ts and
-- src/company/business-unit-resolver.service.ts. The weights of the roles are their places in the
-- order, counted from 1, and 0 is no role of the order.
pub mod Scoped
use nola_hq_backend.Common.{
  ℕ, Bool, true, false, not, ◌&&◌, Option, none, some, List, [], ◌∷◌, map, ◌==◌, nat_eq, string_eq,
  find, contains, if◌then◌else◌, ltb, leb, String, Result, ok, ◌>>=◌, or_throw, bad_request,
}
use nola_hq_backend.Common.Text.{after_prefix}

pub data HqRole : Type 0 where
  owner operator viewer : HqRole

-- `HQ_ROLE_ORDER.indexOf`, from 1
abbrev pub required_weight : HqRole → ℕ
required_weight viewer = 1
required_weight operator = 2
required_weight owner = 3

abbrev pub weight_of : String → ℕ
weight_of role =
    if role == "hq:viewer"
    then 1
    else if role == "hq:operator"
    then 2
    else if role == "hq:owner"
    then 3
    else 0

-- the loop over the user's roles
abbrev pub highest_from : ℕ → List String → ℕ
highest_from highest [] = highest
highest_from highest (r ∷ roles) =
    let weight = weight_of r in highest_from (if ltb highest weight then weight else highest) roles

-- `hasHqRole`
unfoldable pub has_hq_role : List String → HqRole → Bool
has_hq_role roles required = leb (required_weight required) (highest_from 0 roles)

pub record BusinessUnit : Type 0 where
  pub id : String
  pub code : String

-- The table of units, and the copy of it that the resolver keeps.
pub record Directory : Type 0 where
  pub units : List BusinessUnit
  pub cache : Option (List BusinessUnit)

-- `load`: the map, and the cache after it
abbrev pub load : Directory → List BusinessUnit
load directory = elim directory.cache [ none ↦ directory.units | some rows ↦ rows ]

abbrev pub loaded : Directory → Directory
loaded directory = record directory { cache = some (load directory) }

abbrev pub reloaded : Directory → Directory
reloaded directory = record directory { cache = some directory.units }

-- `map.get(code)`
abbrev pub unit_id : List BusinessUnit → String → Option String
unit_id rows code = elim (find (λ (u : BusinessUnit). u.code == code) rows) [
  | none ↦ none
  | some u ↦ some u.id
]

abbrev pub is_known : List BusinessUnit → String → Bool
is_known rows code = elim (unit_id rows code) [ none ↦ false | some id ↦ true ]

-- the directory after the reload of a miss
abbrev pub after_miss : Directory → String → Directory
after_miss directory code =
    if is_known (load directory) code then loaded directory else reloaded directory

-- `resolve`
unfoldable pub resolve : Directory → String → Result (Directory × String)
resolve directory code =
    let now : Directory = after_miss directory code in
    or_throw (unit_id (load now) code) bad_request >>= λ id. ok (now, id)

-- `resolveAllIds`
abbrev pub resolve_all_ids : Directory → List String
resolve_all_ids directory = map (λ (u : BusinessUnit). u.id) (load directory)

-- a value that may be missing, and the others
abbrev pub known_id : Option String → List String → List String
known_id none ids = ids
known_id (some id) ids = id ∷ ids

-- `roles.filter((r) => r.startsWith('hq:bu:')).map((r) => r.slice('hq:bu:'.length))`
abbrev pub unit_codes : List String → List String
unit_codes [] = []
unit_codes (r ∷ roles) = known_id (after_prefix "hq:bu:" r) (unit_codes roles)

-- the loop over the codes
unfoldable pub resolve_codes : Directory → List String → Directory × List String
resolve_codes directory [] = (directory, [])
resolve_codes directory (code ∷ codes) =
    let now : Directory = after_miss directory code in
    let (last, ids) = resolve_codes now codes in (last, known_id (unit_id (load now) code) ids)

-- `[...new Set(ids)]`
abbrev pub unique_from : List String → List String → List String
unique_from seen [] = []
unique_from seen (id ∷ ids) =
    let others = unique_from (id ∷ seen) ids in
    let skipped = unique_from seen ids in if contains seen id then skipped else id ∷ others

-- the part for a user who is not an owner
unfoldable pub units_of_codes : Directory → List String → Directory × List String
unfolding resolve_codes
units_of_codes directory [] = (directory, [])
units_of_codes directory (code ∷ codes) =
    let (last, ids) = resolve_codes (loaded directory) (code ∷ codes) in (last, unique_from [] ids)

-- `resolveAllowedUnits`: the ids, and the directory after it
unfoldable pub resolve_allowed_units : Directory → List String → Directory × List String
unfolding has_hq_role units_of_codes
resolve_allowed_units directory roles =
    if has_hq_role roles owner
    then (loaded directory, resolve_all_ids directory)
    else units_of_codes directory (unit_codes roles)
