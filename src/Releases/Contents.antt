-- ===== src/Releases/Contents.antt =====
-- What a release's counts say.
use nola_hq_backend.Common.{
  ℕ, suc, ◌+◌, ◌≡◌, ◌≢◌, refl, sym, ap, ◌∙◌, ◌⊎◌, subst, ne→beq, beq→ne, bad_request, true, false,
  not, ◌&&◌, Option, none, some, List, [], ◌∷◌, ◌==◌, nat_eq, string_eq, option_eq, filter, length,
  count_if, if◌then◌else◌, String, ok, throw_if, In, arith, Bool-cases, inl, inr, >>=-eq-ok,
  >>-eq-ok, beq→eq, In-filter_of, ltb, eq→beq,
}
use Prim.Native.String.{[], ◌∷◌}
use nola_hq_backend.WorkItems.Types.{WorkItem, WorkItemStatus, resolved, closed, status_eq}
use nola_hq_backend.WorkItems.Service.Filing.{truthy}
use nola_hq_backend.Releases.{
  Release, ReleaseContents, contents, by_status_from, rows_of, contents_of, find_release,
  counts_from, counts_by_release, remove,
}

count_status : WorkItemStatus → List WorkItem → ℕ
count_status s rows = count_if (λ (r : WorkItem). r.status == s) rows

by_status_from_lem :
    (counts : WorkItemStatus → ℕ) (rows : List WorkItem) (s : WorkItemStatus)
    → by_status_from counts rows s ≡ counts s + count_status s rows
unfolding by_status_from count_status
by_status_from_lem counts [] s = omega arith
by_status_from_lem counts (row ∷ rows) s =
    ground
      (arith, by_status_from_lem (λ s. if s == row.status then suc (counts s) else counts s) rows s)

open_rows :
    (rows : List WorkItem)
    → count_if (λ (r : WorkItem). not (r.status == resolved) && not (r.status == closed)) rows
        + count_status resolved rows
        + count_status closed rows
      ≡ length rows
unfolding count_status
open_rows [] = refl
open_rows (row ∷ rows) = ground (arith, open_rows rows)

-- The contents of a release: what remains and what is resolved or closed, by the counts of each
-- status, are together all the rows of the release.
pub contents-total :
    (releases : List Release) (items : List WorkItem) (id : String) (c : ReleaseContents)
    → contents releases items id ≡ ok c
    → (c.total ≡ length (rows_of items id))
      × ((s : WorkItemStatus)
          → c.by_status s ≡ count_if (λ (r : WorkItem). r.status == s) (rows_of items id))
      × (c.remaining + c.by_status resolved + c.by_status closed ≡ c.total)
unfolding contents count_status
contents-total releases items id c h =
    let (release, _, h1) = >>=-eq-ok (find_release releases id) _ h in
    let same : contents_of (rows_of items id) release ≡ c = cc in
    subst
      (λ (x : ReleaseContents).
        (x.total ≡ length (rows_of items id))
        × ((s : WorkItemStatus) → x.by_status s ≡ count_status s (rows_of items id))
        × (x.remaining + x.by_status resolved + x.by_status closed ≡ x.total))
      same
      (
        refl,
        λ s. omega (arith, by_status_from_lem (λ s. 0) (rows_of items id) s),
        omega (
          arith,
          by_status_from_lem (λ s. 0) (rows_of items id) resolved,
          by_status_from_lem (λ s. 0) (rows_of items id) closed,
          open_rows (rows_of items id),
        ),
      )

-- What `if (row.releaseId)` sees.
truthy_cases :
    (id : String) (found : Option String)
    → id ≢ ""
    → ((truthy found ≡ none) × ((found == some id) ≡ false))
      ⊎ ((s : String) × (truthy found ≡ some s) × (found ≡ some s))
truthy_cases id none full = inl (refl, refl)
truthy_cases id (some []) full = inl (refl, ne→beq (some []) (some id) (λ e. full (cc)))
truthy_cases id (some (c ∷ s)) full = inr (c ∷ s, refl, refl)

counts_from_lem :
    (counts : String → ℕ) (rows : List WorkItem) (id : String)
    → id ≢ ""
    → counts_from counts rows id ≡ counts id + length (rows_of rows id)
unfolding counts_from
counts_from_lem counts [] id full = omega arith
counts_from_lem counts (row ∷ rows) id full = elim (truthy_cases id row.release_id full) [
  | inl (absent, other) ↦ rw (absent, other, counts_from) (counts_from_lem counts rows id full)
  | inr (s, named, is) ↦
      let rest = counts_from_lem (λ k. if k == s then suc (counts k) else counts k) rows id full in
      rw (named, counts_from, is)
        (elim (Bool-cases (s == id)) [
          | inl same ↦
              let e : s ≡ id = beq→eq s id same in
              let back : (id == s) ≡ true = eq→beq id s (sym e) in
              rw (same)
                (omega (arith, rest, ap (λ c. if c then suc (counts id) else counts id) back))
          | inr other ↦
              let back : (id == s) ≡ false = ne→beq id s (λ e. beq→ne s id other (sym e)) in
              rw (other)
                (omega (arith, rest, ap (λ c. if c then suc (counts id) else counts id) back))
        ])
]

-- The counts of the list of releases are the totals of their contents, for ids that are not empty.
pub counts_by_release-contents :
    (releases : List Release) (items : List WorkItem) (id : String) (c : ReleaseContents)
    → id ≢ ""
    → contents releases items id ≡ ok c
    → counts_by_release items id ≡ c.total
unfolding counts_by_release
counts_by_release-contents releases items id c full h =
    let (total, _, _) = contents-total releases items id c h in
    omega (arith, counts_from_lem (λ k. 0) items id full, total)

abbrev pub IsReferential : List Release → List WorkItem → Type 0
IsReferential releases items =
    (i : WorkItem) (r : String)
    → In i items
    → i.release_id ≡ some r
    → (release : Release) × In release releases × (release.id ≡ r)

stored_of : (a b : List Release) → ok a ≡ ok b → a ≡ b
stored_of a b h = cc

nonempty : (rows : List WorkItem) (i : WorkItem) → In i rows → length rows ≢ 0
nonempty [] i m e = m
nonempty (x ∷ rows) i m e = omega (arith, e)

-- Removing a release succeeds only where no ticket is in it, and leaves each ticket's release in
-- the register, if it was there before.
pub remove-IsReferential :
    (releases releases' : List Release) (items : List WorkItem) (id : String)
    → remove releases items id ≡ ok releases'
    → IsReferential releases items
    → IsReferential releases' items
unfolding remove
remove-IsReferential releases releases' items id h refs i r m e =
    let (release, there, is) = refs i r m e in
    let (empty, stored) = >>-eq-ok (throw_if (ltb 0 (length (rows_of items id))) bad_request) _ h in
    elim (Bool-cases (release.id == id)) [
      | inl same ↦
          let here : (i.release_id == some id) ≡ true =
            eq→beq i.release_id (some id) (e ∙ ap some (sym is ∙ beq→eq release.id id same)) in
          let mine = In-filter_of (λ (x : WorkItem). x.release_id == some id) i items m here in
          absurd (nonempty (rows_of items id) i mine (ground arith))
      | inr other ↦
          let kept : In release (filter (λ (x : Release). not (x.id == id)) releases) =
            In-filter_of _ release releases there (rw other refl) in
          (release, subst (In release) (stored_of _ _ stored) kept, is)
    ]
