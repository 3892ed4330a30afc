-- ===== src/Releases/Delivered.antt =====
-- The delivery dates of src/releases/releases.service.ts, through runs of its operations.
use nola_hq_backend.Common.{
  ℕ, ◌≡◌, refl, sym, ◌⊎◌, inl, inr, Bool, true, false, not, Option, none, some, List, [], ◌∷◌, ◌++◌,
  ◌==◌, string_eq, filter, if◌then◌else◌, String, ok, In, In-append_right, All, Bool-cases, subst,
  >>-eq-ok, >>=-eq-ok, not_found,
}
use mathlib.Core.List.{append_assoc}
use mathlib.Core.Option.{get_or}
use nola_hq_backend.Common.Rows.{ok-same, or_throw-ok, All-added, All-found, All-replaced}
use nola_hq_backend.Common.Excepted.{ButFor, All-more, All-without, All-only}
use nola_hq_backend.Common.Text.{trim}
use nola_hq_backend.WorkItems.Types.{WorkItem}
use nola_hq_backend.WorkItems.Planning.Sprints.{assigned}
use nola_hq_backend.Releases.{
  Release, ReleaseStatus, planned, is_released, CreateReleaseDto, UpdateReleaseDto, with_version,
  find_release, throw_found, new_release, create, apply_status, status_step, updated_release,
  update, remove, renamed, check_renamed, trim_name,
}

-- A released release has a date, which is one of the times; another has none.
abbrev pub DatedAs : List ℕ → ReleaseStatus → Option ℕ → Type 0
DatedAs times status released_at =
    ((is_released status ≡ false) × (released_at ≡ none))
    ⊎ ((is_released status ≡ true) × ((t : ℕ) × (released_at ≡ some t) × In t times))

abbrev pub Dated : List ℕ → Release → Type 0
Dated times r = DatedAs times r.status r.released_at

-- One accepted operation on the register.
pub data RegisterStep : List Release → List Release → Type 0 where
  created :
      {rs rs' : List Release} (dto : CreateReleaseDto) (new_id : String) (now : ℕ)
      → create rs dto new_id now ≡ ok rs'
      → RegisterStep rs rs'
  updated :
      {rs rs' : List Release} (id : String) (dto : UpdateReleaseDto) (now : ℕ)
      → update rs id dto now ≡ ok rs'
      → RegisterStep rs rs'
  removed :
      {rs rs' : List Release} (items : List WorkItem) (id : String)
      → remove rs items id ≡ ok rs'
      → RegisterStep rs rs'

pub data RegisterSteps : List Release → List Release → Type 0 where
  ended : {rs : List Release} → RegisterSteps rs rs
  next :
      {rs rs' rs'' : List Release}
      → RegisterStep rs rs'
      → RegisterSteps rs' rs''
      → RegisterSteps rs rs''

-- The time of an update that asks for the status `released`.
abbrev delivery_times : Option ReleaseStatus → ℕ → List ℕ
delivery_times none now = []
delivery_times (some status) now = if is_released status then now ∷ [] else []

abbrev pub deliveries : {rs rs' : List Release} → RegisterStep rs rs' → List ℕ
deliveries (updated id dto now h) = delivery_times dto.status now
deliveries _ = []

-- The id of a release that is created as released.
abbrev pub born_released : {rs rs' : List Release} → RegisterStep rs rs' → List String
born_released (created dto new_id now h) =
    if is_released (get_or dto.status planned) then new_id ∷ [] else []
born_released _ = []

abbrev pub all_deliveries : {rs rs' : List Release} → RegisterSteps rs rs' → List ℕ
all_deliveries ended = []
all_deliveries (next s rest) = all_deliveries rest ++ deliveries s

abbrev pub all_born_released : {rs rs' : List Release} → RegisterSteps rs rs' → List String
all_born_released ended = []
all_born_released (next s rest) = all_born_released rest ++ born_released s

DatedAs-more :
    (more times : List ℕ) (status : ReleaseStatus) (date : Option ℕ)
    → DatedAs times status date
    → DatedAs (more ++ times) status date
DatedAs-more more times status date (inl off) = inl off
DatedAs-more more times status date (inr (on, (t, same, m))) =
    inr (on, (t, same, In-append_right t more times m))

status_step-Dated :
    (r : Release) (asked : Option ReleaseStatus) (now : ℕ) (times : List ℕ)
    → Dated times r
    → Dated (delivery_times asked now ++ times) (status_step r asked now)
unfolding apply_status
status_step-Dated r none now times old = old
status_step-Dated r (some status) now times old = elim (Bool-cases (is_released status)) [
  | inr off ↦ rw off (inl (refl, refl))
  | inl on ↦ elim old [
    | inl (idle, undated) ↦ rw (on, idle) (inr (refl, (now, refl, inl refl)))
    | inr (already, (t, same, m)) ↦ rw (on, already) (inr (refl, (t, same, inr m)))
  ]
]

abbrev id_of : Release → String
id_of r = r.id

abbrev DatedBut : List ℕ → List String → List Release → Type 0
DatedBut times ids rs = All (ButFor (Dated times) id_of ids) rs

DatedBut-more :
    (more times : List ℕ) (ids : List String) (rs : List Release)
    → DatedBut times ids rs
    → DatedBut (more ++ times) ids rs
DatedBut-more more times ids [] all = tt
DatedBut-more more times ids (r ∷ rs) (inl d, others) =
    (inl (DatedAs-more more times r.status r.released_at d), DatedBut-more more times ids rs others)
DatedBut-more more times ids (r ∷ rs) (inr m, others) =
    (inr m, DatedBut-more more times ids rs others)

new-Dated :
    (dto : CreateReleaseDto) (new_id : String) (now : ℕ) (times : List ℕ) (ids : List String)
    → ButFor
        (Dated times)
        id_of
        ((if is_released (get_or dto.status planned) then new_id ∷ [] else []) ++ ids)
        (new_release dto new_id now)
new-Dated dto new_id now times ids = elim (Bool-cases (is_released (get_or dto.status planned))) [
  | inl on ↦ rw on (inr (inl refl))
  | inr off ↦ rw off (inl (inl (refl, refl)))
]

All-filter :
    (P : Release → Type 0) (keeps : Release → Bool) (rs : List Release)
    → All P rs
    → All P (filter keeps rs)
All-filter P keeps [] all = tt
All-filter P keeps (r ∷ rs) (first, others) = elim (Bool-cases (keeps r)) [
  | inl kept ↦ rw kept (first, All-filter P keeps rs others)
  | inr dropped ↦ rw dropped (All-filter P keeps rs others)
]

status_step-id :
    (r : Release) (asked : Option ReleaseStatus) (now : ℕ) → (status_step r asked now).id ≡ r.id
unfolding apply_status
status_step-id r none now = refl
status_step-id r (some status) now = elim (Bool-cases (is_released status)) [
  | inr off ↦ rw off refl
  | inl on ↦ elim (Bool-cases (is_released r.status)) [
    | inl already ↦ rw (on, already) refl
    | inr fresh ↦ rw (on, fresh) refl
  ]
]

-- The row before its status, as `update` writes it.
abbrev edited : Release → UpdateReleaseDto → Release
edited release dto = record release {
  version = get_or (renamed release dto.version) release.version;
  name = assigned (trim_name dto.name) release.name;
  target_date = assigned dto.target_date release.target_date;
  notes = assigned dto.notes release.notes;
}

RegisterStep-DatedBut :
    (rs rs' : List Release) (times : List ℕ) (ids : List String) (s : RegisterStep rs rs')
    → DatedBut times ids rs
    → DatedBut (deliveries s ++ times) (born_released s ++ ids) rs'
unfolding create update remove updated_release
RegisterStep-DatedBut rs rs' times ids (created dto new_id now h) all =
    let (free, stored) = >>-eq-ok (throw_found (with_version rs (trim dto.version))) _ h in
    let born = born_released (created dto new_id now h) in
    subst (DatedBut times (born ++ ids)) (ok-same stored) (
      All-added (ButFor (Dated times) id_of (born ++ ids)) rs (new_release dto new_id now)
        (All-more (Dated times) id_of born ids rs all) (new-Dated dto new_id now times ids))
RegisterStep-DatedBut rs rs' times ids (updated id dto now h) all =
    let (release, found, h1) = >>=-eq-ok (find_release rs id) _ h in
    let (free, stored) = >>-eq-ok (check_renamed rs (renamed release dto.version)) _ h1 in
    let more = delivery_times dto.status now in
    let old =
      All-found (ButFor (Dated times) id_of ids) (λ (r : Release). r.id == id) rs release
        (or_throw-ok _ not_found found) all in
    let row = updated_release release dto now in
    let new : ButFor (Dated (more ++ times)) id_of ids row = elim old [
      | inl dated ↦ inl (status_step-Dated (edited release dto) dto.status now times dated)
      | inr m ↦
          inr (subst (λ k. In k ids) (sym (status_step-id (edited release dto) dto.status now)) m)
    ] in
    subst (DatedBut (more ++ times) ids) (ok-same stored) (
      All-replaced (ButFor (Dated (more ++ times)) id_of ids) (λ (r : Release). r.id == release.id)
        row rs new (DatedBut-more more times ids rs all))
RegisterStep-DatedBut rs rs' times ids (removed items id h) all =
    let (empty, stored) = >>-eq-ok _ _ h in
    subst (DatedBut times ids) (ok-same stored)
      (All-filter (ButFor (Dated times) id_of ids) (λ (r : Release). not (r.id == id)) rs all)

RegisterSteps-DatedBut :
    (rs rs' : List Release) (times : List ℕ) (ids : List String) (s : RegisterSteps rs rs')
    → DatedBut times ids rs
    → DatedBut (all_deliveries s ++ times) (all_born_released s ++ ids) rs'
RegisterSteps-DatedBut rs rs' times ids ended all = all
RegisterSteps-DatedBut rs rs' times ids (next {rs' = middle} s rest) all =
    let later =
      RegisterSteps-DatedBut middle rs' (deliveries s ++ times) (born_released s ++ ids) rest
        (RegisterStep-DatedBut rs middle times ids s all) in
    rw
      (
        append_assoc (all_deliveries rest) (deliveries s) times,
        append_assoc (all_born_released rest) (born_released s) ids,
      )
      later

-- Through any run of creations, updates and removals, a release that is released has a delivery
-- date, which is one of the earlier dates or the time of an update to `released`, and a release that
-- is not has none, if this holds at the start, but for the releases that are created as released.
pub RegisterSteps-Dated :
    (rs rs' : List Release) (times : List ℕ) (s : RegisterSteps rs rs')
    → All (Dated times) rs
    → All (λ (r : Release). Dated (all_deliveries s ++ times) r ⊎ In r.id (all_born_released s)) rs'
RegisterSteps-Dated rs rs' times s all =
    All-only (Dated (all_deliveries s ++ times)) id_of (all_born_released s) rs'
      (RegisterSteps-DatedBut rs rs' times [] s (All-without (Dated times) id_of rs all))
