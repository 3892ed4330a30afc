-- ===== src/Releases/Cascade.antt =====
-- What putting a ticket in a release moves along.
use nola_hq_backend.Common.{
  ℕ, zero, suc, ◌≡◌, ◌≢◌, refl, sym, ap, ◌∙◌, subst, true, false, ◌⊎◌, inl, inr, Option, none, some,
  List, [], ◌∷◌, ◌++◌, map, ◌==◌, nat_eq, string_eq, option_eq, filter, contains, if◌then◌else◌,
  String, In, In-map, In-filter, In-append_cases, contains→In, Distinct, Distinct-map, In-map_of,
  ne→beq, beq_self, arith, Bool-cases, beq→eq,
}
use nola_hq_backend.Common.Graph.{Reaches, here, step}
use nola_hq_backend.Board.Splice.{Distinct-eq}
use nola_hq_backend.WorkItems.Types.{WorkItem}
use nola_hq_backend.Releases.{
  children_of, take_new, descend, descendants_of, follows, put_release, saved_rows, cascade,
}

-- A row of the table is a child of another by its parent.
abbrev pub Child : List WorkItem → ℕ → ℕ → Type 0
Child items a b = (i : WorkItem) × In i items × (i.id ≡ a) × (i.parent_id ≡ some b)

In-take_new :
    (seen : List ℕ) (children : List WorkItem) (i : WorkItem)
    → In i (take_new seen children)
    → In i children × (contains seen i.id ≡ false)
unfolding take_new
In-take_new seen [] i m = absurd m
In-take_new seen (child ∷ children) i m = elim (Bool-cases (contains seen child.id)) [
  | inl old ↦
      let (there, new) = In-take_new seen children i (rw (old, take_new) at m) in (inr there, new)
  | inr new ↦ go new (In-take_new (child.id ∷ seen) children i) (rw (new, take_new) at m)
]
  where
    go :
        contains seen child.id ≡ false
        → (In i (take_new (child.id ∷ seen) children)
            → In i children × (contains (child.id ∷ seen) i.id ≡ false))
        → (i ≡ child) ⊎ In i (take_new (child.id ∷ seen) children)
        → ((i ≡ child) ⊎ In i children) × (contains seen i.id ≡ false)
    go new ih (inl e) = (inl e, rw e new)
    go new ih (inr m) = let (there, off) = ih m in (inr there, ground arith)

child_of :
    (items : List WorkItem) (frontier : List ℕ) (i : WorkItem)
    → In i (children_of items frontier)
    → In i items × ((p : ℕ) × (i.parent_id ≡ some p) × In p frontier)
child_of items frontier i m =
    let (there, test) = In-filter _ i items m in
    let (p, e, c) = parent_cases i.parent_id test in (there, (p, e, contains→In frontier p c))
  where
    parent_cases :
        (parent : Option ℕ)
        → elim parent [ none ↦ false | some p ↦ contains frontier p ] ≡ true
        → (p : ℕ) × (parent ≡ some p) × (contains frontier p ≡ true)
    parent_cases none h = cc
    parent_cases (some p) h = (p, refl, h)

contains_append : (xs ys : List ℕ) (a : ℕ) → contains ys a ≡ true → contains (xs ++ ys) a ≡ true
contains_append [] ys a h = h
contains_append (x ∷ xs) ys a h = ground (arith, contains_append xs ys a h)

-- A row of the next level lies below the root, and was not seen.
fresh_below :
    (root : ℕ) (items : List WorkItem) (frontier seen : List ℕ)
    → ((x : ℕ) → In x frontier → Reaches (Child items) x root)
    → (x : WorkItem) → In x (take_new seen (children_of items frontier))
    → In x items × Reaches (Child items) x.id root × (contains seen x.id ≡ false)
fresh_below root items frontier seen below x n =
    let (from, new) = In-take_new seen (children_of items frontier) x n in
    let (there, link) = child_of items frontier x from in
    let (p, e, up) = link in (there, step (x, there, refl, e) (below p up), new)

-- Every row that the levels find lies below the root, and is not the root.
descend_sound :
    (root depth : ℕ) (items : List WorkItem) (frontier seen : List ℕ)
    → ((x : ℕ) → In x frontier → Reaches (Child items) x root)
    → contains seen root ≡ true
    → (i : WorkItem) → In i (descend depth items frontier seen)
    → In i items × Reaches (Child items) i.id root × (i.id ≢ root)
unfolding descend
descend_sound root zero items frontier seen below marked i m = absurd m
descend_sound root (suc depth) items frontier seen below marked i m =
    let fresh = take_new seen (children_of items frontier) in
    let one = fresh_below root items frontier seen below in
    let ids = map (λ (x : WorkItem). x.id) fresh in
    elim (In-append_cases i fresh _ m) [
      | inl n ↦
          let (there, reaches, new) = one i n in
          (there, reaches, λ e. cc (new, ap (contains seen) e, marked))
      | inr n ↦
          descend_sound root depth items ids (ids ++ seen)
            (λ x k.
              let (y, among, is) = In-map (λ (x : WorkItem). x.id) x fresh k in
              let (_, reaches, _) = one y among in
              subst (λ z. Reaches (Child items) z root) (sym is) reaches)
            (contains_append ids seen root marked) i n
    ]

-- What a row of the table may become.
abbrev pub Moved : List WorkItem → WorkItem → Option String → ℕ → WorkItem → WorkItem → Type 0
Moved items item release_id now row row' =
    (row' ≡ row)
    ⊎ ((row' ≡ put_release release_id now row)
        × ((row ≡ item)
            ⊎ (Reaches (Child (saved_rows items item release_id now)) row.id item.id
                × (row.id ≢ item.id)
                × (follows item.release_id row ≡ true))))

module _ (items : List WorkItem) (item : WorkItem) (release_id : Option String) (now : ℕ)
    (distinct : Distinct (map (λ (i : WorkItem). i.id) items)) (mine : In item items) where
  saved : List WorkItem
  saved = saved_rows items item release_id now

  save : WorkItem → WorkItem
  save i = if i.id == item.id then put_release release_id now item else i

  save_id : (i : WorkItem) → (save i).id ≡ i.id
  unfolding save
  save_id i = elim (Bool-cases (i.id == item.id)) [
    | inl same ↦ rw same (sym (beq→eq i.id item.id same))
    | inr other ↦ rw other refl
  ]

  follower :
      (row : WorkItem)
      → In row items
      → contains
          (map
            (λ (f : WorkItem). f.id)
            (filter (follows item.release_id) (descendants_of saved item.id)))
          (save row).id
        ≡ true
      → (save row ≡ row)
        × Reaches (Child saved) row.id item.id
        × (row.id ≢ item.id)
        × (follows item.release_id row ≡ true)
  unfolding descendants_of saved save
  follower row there hit =
      let (f, among, is) =
        In-map (λ (f : WorkItem). f.id) (save row).id _ (contains→In _ (save row).id hit) in
      let (found, test) = In-filter (follows item.release_id) f _ among in
      let (stored, reaches, off) =
        descend_sound item.id 8 saved (item.id ∷ []) (item.id ∷ []) (λ x k. root x k)
          (rw (beq_self item.id) refl) f found in
      let one : f ≡ save row =
        Distinct-eq (λ (i : WorkItem). i.id) saved f (save row)
          (Distinct-map (λ (i : WorkItem). i.id) save items save_id distinct) stored
          (In-map_of save row items there) (sym is) in
      let apart : row.id ≢ item.id = λ e. off (ap (λ (x : WorkItem). x.id) one ∙ save_id row ∙ e) in
      let same : save row ≡ row = rw (ne→beq row.id item.id apart) refl in
      let all : f ≡ row = one ∙ same in
      (
        same,
        subst (λ (x : WorkItem). Reaches (Child saved) x.id item.id) all reaches,
        apart,
        subst (λ x. follows item.release_id x ≡ true) all test,
      )
    where
      root : (x : ℕ) → (x ≡ item.id) ⊎ ⊥ → Reaches (Child saved) x item.id
      root x (inl e) = subst (λ z. Reaches (Child saved) z item.id) (sym e) here
      root x (inr n) = absurd n

  -- Putting a ticket in a release writes nothing in a row, or its release and its update time:
  -- that row is the ticket itself, or lies below it by parents and had no release or the one that
  -- the ticket leaves. Every other column stays. Ids are distinct, and the ticket is in the table.
  pub cascade-rows :
      (row' : WorkItem)
      → In row' (cascade items item release_id now).0
      → (row : WorkItem) × In row items × Moved items item release_id now row row'
  unfolding cascade saved save
  cascade-rows row' m =
      let (s, among, is) = In-map _ row' saved m in
      let (row, there, was) = In-map save s items among in
      (
        row,
        there,
        elim (Bool-cases (
            contains
              (map (λ (f : WorkItem). f.id)
                (filter (follows item.release_id) (descendants_of saved item.id)))
              s.id)) [
                | inl hit ↦
                    let (same, reaches, apart, test) = follower row there (
                      subst
                        (λ (x : WorkItem).
                          contains
                            (map (λ (f : WorkItem). f.id)
                              (filter (follows item.release_id) (descendants_of saved item.id)))
                            x.id
                          ≡ true)
                        was hit) in
                    inr (
                      (rw hit at is) ∙ ap (put_release release_id now) (was ∙ same),
                      inr (reaches, apart, test),
                    )
                | inr miss ↦ elim (Bool-cases (row.id == item.id)) [
                  | inl me ↦
                      let e : row ≡ item =
                        Distinct-eq (λ (i : WorkItem). i.id) items row item distinct there mine
                          (beq→eq row.id item.id me) in
                      let kept : save row ≡ put_release release_id now item = rw me refl in
                      inr (
                        (rw miss at is) ∙ was ∙ kept ∙ ap (put_release release_id now) (sym e),
                        inl e,
                      )
                  | inr other ↦
                      let kept : save row ≡ row = rw other refl in
                      inl ((rw miss at is) ∙ was ∙ kept)
                ]
              ],
      )
