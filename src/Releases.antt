-- ===== src/Releases.antt =====
-- src/releases/releases.service.ts, over the table of releases and the backlog's rows. The uuid of
-- a new release and the time are arguments. A record by key (`byStatus`, the counts) is the function
-- that reads it, with 0 for a key that is missing.
pub mod Registry
pub mod Delivered
pub mod Cascade
pub mod Contents
use nola_hq_backend.Common.{
  ℕ, zero, suc, ◌+◌, Bool, true, false, not, ◌&&◌, ◌||◌, Option, none, some, List, [], ◌∷◌, ◌++◌,
  map, Eq, ◌↔◌, ◌≡◌, arith, ◌==◌, nat_eq, string_eq, option_eq, filter, find, length, count_if, ltb,
  contains, if◌then◌else◌, String, Result, ok, err, ◌>>=◌, ◌>>◌, throw_if, or_throw, not_found,
  conflict, bad_request,
}
use mathlib.Core.Option.{get_or}
use nola_hq_backend.Common.Text.{trim, or_null, trim_or_null}
use nola_hq_backend.WorkItems.Types.{WorkItem, WorkItemStatus, resolved, closed, status_eq}
use nola_hq_backend.WorkItems.Planning.Sprints.{assigned}
use nola_hq_backend.WorkItems.Service.{find_one}
use nola_hq_backend.WorkItems.Service.Filing.{truthy}

pub data ReleaseStatus : Type 0 where
  planned in_progress released cancelled : ReleaseStatus

abbrev pub is_released : ReleaseStatus → Bool
is_released released = true
is_released _ = false

pub record Release : Type 0 where
  pub id : String
  pub version : String
  pub name : Option String
  pub status : ReleaseStatus
  pub target_date : Option ℕ
  pub released_at : Option ℕ
  pub notes : Option String
  pub created_at : ℕ
  pub updated_at : ℕ

pub record CreateReleaseDto : Type 0 where
  pub version : String
  pub name : Option String
  pub status : Option ReleaseStatus
  pub target_date : Option ℕ
  pub notes : Option String

-- `none` is a field left out; the inner `none` of a nullable field is `null`.
pub record UpdateReleaseDto : Type 0 where
  pub version : Option String
  pub name : Option (Option String)
  pub status : Option ReleaseStatus
  pub target_date : Option (Option ℕ)
  pub notes : Option (Option String)

-- `findOne({ where: { version } })`
abbrev pub with_version : List Release → String → Option Release
with_version releases version = find (λ (r : Release). r.version == version) releases

abbrev pub find_release : List Release → String → Result Release
find_release releases id = or_throw (find (λ (r : Release). r.id == id) releases) not_found

-- `if (found) throw e`
abbrev pub throw_found : Option Release → Result (Unit {0})
throw_found none = ok tt
throw_found (some r) = err conflict

abbrev pub new_release : CreateReleaseDto → String → ℕ → Release
new_release dto new_id now = record {
  id = new_id;
  version = trim dto.version;
  name = trim_or_null dto.name;
  status = get_or dto.status planned;
  target_date = dto.target_date;
  released_at = none;
  notes = dto.notes;
  created_at = now;
  updated_at = now;
}

unfoldable pub create : List Release → CreateReleaseDto → String → ℕ → Result (List Release)
create releases dto new_id now =
    throw_found (with_version releases (trim dto.version))
    >> ok (releases ++ new_release dto new_id now ∷ [])

-- `applyStatus`
unfoldable pub apply_status : Release → ReleaseStatus → ℕ → Release
apply_status release status now =
    let dated : Release =
      if is_released status && not (is_released release.status)
      then record release { released_at = some now }
      else release in
    let cleared : Release =
      if not (is_released status) then record dated { released_at = none } else dated in
    record cleared { status = status }

-- the version that `update` writes: `none` where it stays
abbrev pub renamed : Release → Option String → Option String
renamed release asked = elim (truthy asked) [
  | none ↦ none
  | some version ↦ if not (trim version == release.version) then some (trim version) else none
]

abbrev pub check_renamed : List Release → Option String → Result (Unit {0})
check_renamed releases none = ok tt
check_renamed releases (some version) = throw_found (with_version releases version)

abbrev pub trim_name : Option (Option String) → Option (Option String)
trim_name none = none
trim_name (some name) = some (trim_or_null name)

-- `if (dto.status) this.applyStatus(…)`
abbrev pub status_step : Release → Option ReleaseStatus → ℕ → Release
status_step release none now = release
status_step release (some status) now = apply_status release status now

unfoldable pub updated_release : Release → UpdateReleaseDto → ℕ → Release
unfolding apply_status
updated_release release dto now =
    let edited : Release = record release {
      version = get_or (renamed release dto.version) release.version;
      name = assigned (trim_name dto.name) release.name;
      target_date = assigned dto.target_date release.target_date;
      notes = assigned dto.notes release.notes;
    } in
    record (status_step edited dto.status now) { updated_at = now }

unfoldable pub update : List Release → String → UpdateReleaseDto → ℕ → Result (List Release)
unfolding updated_release
update releases id dto now = find_release releases id >>= λ (release : Release).
    check_renamed releases (renamed release dto.version)
    >> ok (
        map (λ (r : Release). if r.id == release.id then updated_release release dto now else r)
          releases)

-- the rows of a release
abbrev pub rows_of : List WorkItem → String → List WorkItem
rows_of items id = filter (λ (i : WorkItem). i.release_id == some id) items

-- the loop over the rows that counts them by status
unfoldable pub by_status_from : (WorkItemStatus → ℕ) → List WorkItem → WorkItemStatus → ℕ
by_status_from counts [] = counts
by_status_from counts (row ∷ rows) =
    by_status_from (λ s. if s == row.status then suc (counts s) else counts s) rows

pub record ReleaseContents : Type 0 where
  pub release : Release
  pub total : ℕ
  pub by_status : WorkItemStatus → ℕ
  pub remaining : ℕ

abbrev pub contents_of : List WorkItem → Release → ReleaseContents
contents_of rows release = record {
  release = release;
  total = length rows;
  by_status = by_status_from (λ s. 0) rows;
  remaining =
      count_if (λ (r : WorkItem). not (r.status == resolved) && not (r.status == closed)) rows;
}

unfoldable pub contents : List Release → List WorkItem → String → Result ReleaseContents
unfolding by_status_from
contents releases items id =
    find_release releases id >>= λ (release : Release). ok (contents_of (rows_of items id) release)

-- `rootsOf`, in the table's order
unfoldable pub roots_of : List Release → List WorkItem → String → Result (List WorkItem)
roots_of releases items id = find_release releases id >>= λ (release : Release).
    let rows = rows_of items id in
    let ids = map (λ (r : WorkItem). r.id) rows in
    ok (
      filter (λ (r : WorkItem). elim r.parent_id [ none ↦ true | some p ↦ not (contains ids p) ])
        rows)

unfoldable pub find_by_version : List Release → String → Option Release
find_by_version releases version = elim (or_null (trim version)) [
  | none ↦ none
  | some needle ↦ with_version releases needle
]

unfoldable pub remove : List Release → List WorkItem → String → Result (List Release)
remove releases items id =
    throw_if (ltb 0 (length (rows_of items id))) bad_request
    >> ok (filter (λ (r : Release). not (r.id == id)) releases)

-- `countsByRelease`
unfoldable pub counts_from : (String → ℕ) → List WorkItem → String → ℕ
counts_from counts [] = counts
counts_from counts (row ∷ rows) = elim (truthy row.release_id) [
  | none ↦ counts_from counts rows
  | some id ↦ counts_from (λ k. if k == id then suc (counts k) else counts k) rows
]

unfoldable pub counts_by_release : List WorkItem → String → ℕ
unfolding counts_from
counts_by_release items = counts_from (λ k. 0) items

-- `where: { parentId: In(frontier) }`
abbrev pub children_of : List WorkItem → List ℕ → List WorkItem
children_of items frontier =
    filter (λ (i : WorkItem). elim i.parent_id [ none ↦ false | some p ↦ contains frontier p ])
      items

-- the inner loop of `descendantsOf`: the children that are not seen yet
unfoldable pub take_new : (seen : List ℕ) → List WorkItem → List WorkItem
take_new seen [] = []
take_new seen (child ∷ children) =
    if contains seen child.id
    then take_new seen children
    else child ∷ take_new (child.id ∷ seen) children

-- the loop over the levels; a level with no new child has an empty frontier, and ends it
unfoldable pub descend : (depth : ℕ) → List WorkItem → (frontier seen : List ℕ) → List WorkItem
unfolding take_new
descend zero items frontier seen = []
descend (suc depth) items frontier seen =
    let fresh = take_new seen (children_of items frontier) in
    let ids = map (λ (i : WorkItem). i.id) fresh in fresh ++ descend depth items ids (ids ++ seen)

unfoldable pub descendants_of : List WorkItem → ℕ → List WorkItem
unfolding descend
descendants_of items root_id = descend 8 items (root_id ∷ []) (root_id ∷ [])

-- those that follow: without a release, or in the one that is left
abbrev pub follows : Option String → WorkItem → Bool
follows previous d = d.release_id == none || d.release_id == previous

abbrev pub check_release : List Release → Option String → Result (Unit {0})
check_release releases release_id = elim (truthy release_id) [
  | none ↦ ok tt
  | some id ↦ find_release releases id >>= λ (r : Release). ok tt
]

abbrev pub put_release : Option String → ℕ → WorkItem → WorkItem
put_release release_id now row = record row { release_id = release_id; updated_at = now }

-- the rows once the item is saved
abbrev pub saved_rows : List WorkItem → WorkItem → Option String → ℕ → List WorkItem
saved_rows items item release_id now =
    map (λ (i : WorkItem). if i.id == item.id then put_release release_id now item else i) items

-- The cascade reads the rows once the item itself is saved, and its UPDATE rewrites the followers.
unfoldable pub cascade : List WorkItem → WorkItem → Option String → ℕ → List WorkItem × ℕ
unfolding descendants_of
cascade items item release_id now =
    let saved = saved_rows items item release_id now in
    let followers = filter (follows item.release_id) (descendants_of saved item.id) in
    let ids = map (λ (f : WorkItem). f.id) followers in
    (
      map (λ (i : WorkItem). if contains ids i.id then put_release release_id now i else i) saved,
      length followers,
    )

unfoldable pub assign_to_work_item :
    List Release → List WorkItem → ℕ → Option String → ℕ → Result (List WorkItem × ℕ)
unfolding cascade
assign_to_work_item releases items work_item_id release_id now =
    find_one items work_item_id >>= λ (item : WorkItem).
    check_release releases release_id
    >> (if item.release_id == release_id
        then ok (items, 0)
        else ok (cascade items item release_id now))
