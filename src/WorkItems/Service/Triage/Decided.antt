-- ===== src/WorkItems/Service/Triage/Decided.antt =====
-- Which rows a decision on the inbox changes, and what it reports.
use nola_hq_backend.Common.{
  ℕ, ◌≡◌, refl, Bool, false, not, ◌&&◌, ◌||◌, inl, inr, none, some, List, [], ◌∷◌, map, ◌==◌,
  nat_eq, contains, Distinct, if◌then◌else◌, String, arith, Bool-cases, beq→eq, map-cong_In,
  find-key, ap,
}
use nola_hq_backend.WorkItems.Types.{WorkItem, triage, status_eq}
use nola_hq_backend.WorkItems.Service.{Backlog}
use nola_hq_backend.WorkItems.Service.Triage.{
  Decision, accept, dismiss, SkipReason, unique_from, by_id, sort_out, decided_row, decide_triage,
}

abbrev ids_of : List WorkItem → List ℕ
ids_of = map (λ (i : WorkItem). i.id)

contains-unique_from :
    (seen ids : List ℕ) (x : ℕ)
    → contains (unique_from seen ids) x ≡ (contains ids x && not (contains seen x))
unfolding unique_from
contains-unique_from seen [] x = refl
contains-unique_from seen (id ∷ ids) x = elim (Bool-cases (id == x)) [
  | inl same ↦ elim (Bool-cases (contains seen id)) [
    | inl old ↦
        let e : id ≡ x = beq→eq id x same in
        rw (old, same) (ground (arith, contains-unique_from seen ids x, ap (contains seen) e))
    | inr new ↦
        let e : id ≡ x = beq→eq id x same in rw (new, same) (ground (arith, ap (contains seen) e))
  ]
  | inr other ↦ elim (Bool-cases (contains seen id)) [
    | inl old ↦ rw (old, other) (contains-unique_from seen ids x)
    | inr new ↦ rw (new, other) (ground (arith, contains-unique_from (id ∷ seen) ids x))
  ]
]

-- The ids that move are those that are asked for and found in triage.
abbrev is_triage_at : List WorkItem → ℕ → Bool
is_triage_at items x = elim (by_id items x) [ none ↦ false | some i ↦ i.status == triage ]

contains-moved :
    (items : List WorkItem) (ids : List ℕ) (x : ℕ)
    → contains (sort_out items ids).0 x ≡ (contains ids x && is_triage_at items x)
unfolding sort_out
contains-moved items [] x = refl
contains-moved items (id ∷ ids) x = elim (Bool-cases (id == x)) [
  | inl same ↦
      let e : id ≡ x = beq→eq id x same in
      ground (arith, contains-moved items ids x, ap (by_id items) e)
  | inr other ↦ ground (arith, contains-moved items ids x)
]

skipped_ids : (items : List WorkItem) → List ℕ → List ℕ
skipped_ids items ids = map (λ (s : ℕ × SkipReason). s.0) (sort_out items ids).1

contains-skipped :
    (items : List WorkItem) (ids : List ℕ) (x : ℕ)
    → contains (skipped_ids items ids) x ≡ (contains ids x && not (is_triage_at items x))
unfolding sort_out skipped_ids
contains-skipped items [] x = refl
contains-skipped items (id ∷ ids) x = elim (Bool-cases (id == x)) [
  | inl same ↦
      let e : id ≡ x = beq→eq id x same in
      ground (arith, contains-skipped items ids x, ap (by_id items) e)
  | inr other ↦ ground (arith, contains-skipped items ids x)
]

-- A decision on the inbox rewrites exactly the rows that were asked for and are in triage: with
-- distinct ids, every other row is as it was.
pub decide_triage_rows :
    (b : Backlog) (ids : List ℕ) (actor : String) (decision : Decision) (now : ℕ)
    → Distinct (ids_of b.items)
    → (decide_triage b ids actor decision now).0.items
      ≡ map
          (λ (i : WorkItem).
            if contains ids i.id && i.status == triage then decided_row decision actor now i else i)
          b.items
unfolding decide_triage
decide_triage_rows b ids actor decision now distinct = map-cong_In _ _ b.items (λ i m. ground (
  arith,
  contains-moved b.items (unique_from [] ids) i.id,
  contains-unique_from [] ids i.id,
  find-key (λ (x : WorkItem). x.id) b.items i distinct m,
))

-- The ids that a report lists as decided are those asked for whose row is in triage; those it
-- lists as skipped are the others that were asked for.
pub decide_triage_report :
    (b : Backlog) (ids : List ℕ) (actor : String) (decision : Decision) (now x : ℕ)
    → let r = (decide_triage b ids actor decision now).1 in
      ((contains r.accepted x || contains r.dismissed x)
        ≡ (contains ids x && is_triage_at b.items x))
      × (contains (map (λ (s : ℕ × SkipReason). s.0) r.skipped) x
          ≡ (contains ids x && not (is_triage_at b.items x)))
unfolding decide_triage skipped_ids
decide_triage_report b ids actor accept now x = (
  ground (arith, contains-moved b.items (unique_from [] ids) x, contains-unique_from [] ids x),
  ground (arith, contains-skipped b.items (unique_from [] ids) x, contains-unique_from [] ids x),
)
decide_triage_report b ids actor dismiss now x = (
  ground (arith, contains-moved b.items (unique_from [] ids) x, contains-unique_from [] ids x),
  ground (arith, contains-skipped b.items (unique_from [] ids) x, contains-unique_from [] ids x),
)
