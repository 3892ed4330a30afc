-- ===== src/Units/Scoped.antt =====
-- The units that a user sees are those of the user's roles.
use nola_hq_backend.Common.{
  ◌≡◌, refl, sym, ap, subst, false, Option, none, some, List, [], ◌∷◌, ◌==◌, string_eq, find,
  contains, String, In, ◌⊎◌, inl, inr, Bool-cases, Option-cases, find_sound, beq→eq,
}
use nola_hq_backend.Common.Text.{after_prefix}
use nola_hq_backend.Units.{
  BusinessUnit, Directory, owner, has_hq_role, load, loaded, unit_id, is_known, after_miss,
  unit_codes, known_id, resolve_codes, unique_from, units_of_codes, resolve_allowed_units,
}

-- A row of the table or of its copy, with its code.
abbrev pub OfUnit : Directory → (id code : String) → Type 0
OfUnit directory id code =
    (u : BusinessUnit) × (In u directory.units ⊎ In u (load directory))
    × (u.id ≡ id)
    × (u.code ≡ code)

-- The rows that a lookup can see after a reload are rows of the directory before it.
abbrev SeesNoMore : Directory → Directory → Type 0
SeesNoMore before now =
    (now.units ≡ before.units)
    × ((u : BusinessUnit) → In u (load now) → In u before.units ⊎ In u (load before))

after_miss-SeesNoMore :
    (directory : Directory) (code : String) → SeesNoMore directory (after_miss directory code)
after_miss-SeesNoMore directory code = elim (Bool-cases (is_known (load directory) code)) [
  | inl known ↦ rw known (refl, λ u m. inr m)
  | inr missed ↦ rw missed (refl, λ u m. inl m)
]

OfUnit-before :
    (before now : Directory) (id code : String)
    → SeesNoMore before now
    → OfUnit now id code
    → OfUnit before id code
OfUnit-before before now id code (same, sees) (u, inl m, i, c) =
    (u, inl (subst (λ l. In u l) same m), i, c)
OfUnit-before before now id code (same, sees) (u, inr m, i, c) = (u, sees u m, i, c)

unit_id-OfUnit :
    (directory : Directory) (code id : String)
    → unit_id (load directory) code ≡ some id
    → OfUnit directory id code
unit_id-OfUnit directory code id h =
    elim (Option-cases (find (λ (u : BusinessUnit). u.code == code) (load directory))) [
      | inl missed ↦ absurd (cc (rw (unit_id, missed) at h))
      | inr (u, hit) ↦
          let (m, named) = find_sound (λ (x : BusinessUnit). x.code == code) (load directory) hit in
          (u, inr m, cc (rw (unit_id, hit) at h), beq→eq u.code code named)
    ]

In-known_id :
    (found : Option String) (ids : List String) (id : String)
    → In id (known_id found ids)
    → (found ≡ some id) ⊎ In id ids
In-known_id none ids id m = inr m
In-known_id (some a) ids id (inl e) = inl (ap some (sym e))
In-known_id (some a) ids id (inr m) = inr m

resolve_codes-OfUnit :
    (directory : Directory) (codes : List String) (id : String)
    → In id (resolve_codes directory codes).1
    → (code : String) × In code codes × OfUnit directory id code
unfolding resolve_codes
resolve_codes-OfUnit directory [] id m = absurd m
resolve_codes-OfUnit directory (code ∷ codes) id m =
    let now : Directory = after_miss directory code in
    let sees = after_miss-SeesNoMore directory code in
    elim (In-known_id (unit_id (load now) code) (resolve_codes now codes).1 id m) [
      | inl hit ↦ (
        code,
        inl refl,
        OfUnit-before directory now id code sees (unit_id-OfUnit now code id hit),
      )
      | inr later ↦
          let (c, there, unit) = resolve_codes-OfUnit now codes id later in
          (c, inr there, OfUnit-before directory now id c sees unit)
    ]

In-unique_from : (seen ids : List String) (id : String) → In id (unique_from seen ids) → In id ids
In-unique_from seen [] id m = m
In-unique_from seen (x ∷ ids) id m = elim (Bool-cases (contains seen x)) [
  | inl skipped ↦ inr (In-unique_from seen ids id (rw skipped at m))
  | inr kept ↦ go (In-unique_from (x ∷ seen) ids id) (rw kept at m)
]
  where
    go :
        (In id (unique_from (x ∷ seen) ids) → In id ids)
        → (id ≡ x) ⊎ In id (unique_from (x ∷ seen) ids)
        → (id ≡ x) ⊎ In id ids
    go later (inl e) = inl e
    go later (inr m) = inr (later m)

unit_codes-role :
    (roles : List String) (code : String)
    → In code (unit_codes roles)
    → (role : String) × In role roles × (after_prefix "hq:bu:" role ≡ some code)
unit_codes-role [] code m = absurd m
unit_codes-role (r ∷ roles) code m =
    elim (In-known_id (after_prefix "hq:bu:" r) (unit_codes roles) code m) [
      | inl named ↦ (r, inl refl, named)
      | inr later ↦
          let (role, there, named) = unit_codes-role roles code later in (role, inr there, named)
    ]

units_of_codes-OfUnit :
    (directory : Directory) (codes : List String) (id : String)
    → In id (units_of_codes directory codes).1
    → (code : String) × In code codes × OfUnit directory id code
unfolding units_of_codes
units_of_codes-OfUnit directory [] id m = absurd m
units_of_codes-OfUnit directory (code ∷ codes) id m =
    let (c, there, unit) =
      resolve_codes-OfUnit (loaded directory) (code ∷ codes) id
        (In-unique_from [] (resolve_codes (loaded directory) (code ∷ codes)).1 id m) in
    (c, there, OfUnit-before directory (loaded directory) id c (refl, λ u here. inr here) unit)

-- A user who is not an owner is given only units of which a role `hq:bu:<code>` names the code, as
-- rows of the table or of its copy.
pub resolve_allowed_units-role :
    (directory : Directory) (roles : List String) (id : String)
    → has_hq_role roles owner ≡ false
    → In id (resolve_allowed_units directory roles).1
    → (role : String) × (code : String) × In role roles
      × (after_prefix "hq:bu:" role ≡ some code)
      × OfUnit directory id code
unfolding resolve_allowed_units
resolve_allowed_units-role directory roles id not_owner m =
    let (code, there, unit) =
      units_of_codes-OfUnit directory (unit_codes roles) id (rw not_owner at m) in
    let (role, held, named) = unit_codes-role roles code there in (role, code, held, named, unit)
