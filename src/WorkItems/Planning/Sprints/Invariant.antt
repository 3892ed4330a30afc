-- ===== src/WorkItems/Planning/Sprints/Invariant.antt =====
-- What creating and updating sprints keeps: one active sprint for each project, and dates in order.
use nola_hq_backend.Common.{
  ℕ, ◌≡◌, sym, true, false, ◌⊎◌, inl, inr, Option, none, some, List, [], ◌∷◌, ◌++◌, ◌==◌, string_eq,
  option_eq, find, In, arith, Bool-cases, Option-cases, if◌then◌else◌, String, ok, ◌>>◌, throw_if,
  find_sound, find-none, In-append_cases, In-map, beq→eq, >>-eq-ok, subst, and-eq-true, bad_request,
}
use nola_hq_backend.WorkItems.Planning.Sprints.{
  new_sprint, patched_sprint, is_active, WorkSprint, CreateWorkSprintDto, UpdateWorkSprintDto,
  coalesce, assigned, later, assert_sprint_dates, is_active_of, assert_no_active_sprint,
  is_active_status, create_sprint, save_sprint, check_activation, update_sprint,
}

-- A project has one active sprint at most.
abbrev pub OneActive : List WorkSprint → Type 0
OneActive sprints =
    (p : String) (s t : WorkSprint)
    → In s sprints
    → In t sprints
    → is_active_of p s ≡ true
    → is_active_of p t ≡ true
    → s.id ≡ t.id

abbrev pub DatesOrdered : List WorkSprint → Type 0
DatesOrdered sprints = (s : WorkSprint) → In s sprints → later s.start_date s.end_date ≡ false

-- The check passes where no other row is active.
no_other :
    (sprints : List WorkSprint) (p : String) (exclude : Option String) (t : WorkSprint)
    → OneActive sprints
    → assert_no_active_sprint sprints p exclude ≡ ok tt
    → In t sprints
    → is_active_of p t ≡ true
    → some t.id ≡ exclude
unfolding assert_no_active_sprint
no_other sprints p exclude t one passed m act =
    elim (Option-cases (find (is_active_of p) sprints)) [
      | inl missed ↦ absurd (cc (find-none (is_active_of p) sprints t missed m, act))
      | inr (found, hit) ↦
          let (there, is) = find_sound (is_active_of p) sprints hit in
          let same : found.id ≡ t.id = one p found t there m is act in
          let kept : (some found.id == exclude) ≡ true = ground (arith) in
          cc (beq→eq (some found.id) exclude kept, same)
    ]

module _ (projects : List String) (sprints sprints' : List WorkSprint) (dto : CreateWorkSprintDto)
    (new_id : String) (now : ℕ)
    (saved : create_sprint projects sprints dto new_id now ≡ ok sprints') where
  created :
      (sprints' ≡ sprints ++ new_sprint dto new_id now ∷ [])
      × (later dto.start_date dto.end_date ≡ false)
      × (is_active_status dto.status ≡ true
          → assert_no_active_sprint sprints dto.project_id none ≡ ok tt)
  unfolding create_sprint assert_sprint_dates
  created = (ground arith, ground arith, λ h. ground arith)

  fresh :
      OneActive sprints
      → (p : String) (s t : WorkSprint) → s ≡ new_sprint dto new_id now
      → In t sprints
      → is_active_of p s ≡ true
      → is_active_of p t ≡ true
      → ⊥
  fresh one p s t q m sa ta =
      let act : is_active_of p (new_sprint dto new_id now) ≡ true =
        subst (λ x. is_active_of p x ≡ true) q sa in
      let (here, live) = and-eq-true _ _ act in
      let same : dto.project_id ≡ p = beq→eq dto.project_id p here in
      let checked : assert_no_active_sprint sprints dto.project_id none ≡ ok tt =
        created.2 (ground arith) in
      cc (no_other sprints dto.project_id none t one checked m (rw same ta))

  -- Creating a sprint, where it is accepted, keeps one active sprint for each project, and every
  -- sprint's end at or after its start, if both hold before.
  pub create_sprint-OneActive :
      OneActive sprints × DatesOrdered sprints → OneActive sprints' × DatesOrdered sprints'
  create_sprint-OneActive (one, dates) = (
    λ p s t ms mt sa ta.
        pair p s t (In-append_cases s sprints _ (rw created.0 at ms))
          (In-append_cases t sprints _ (rw created.0 at mt)) sa ta,
    λ s m. elim (In-append_cases s sprints _ (rw created.0 at m)) [
      | inl q ↦ dates s q
      | inr q ↦ last s q
    ],
  )
    where
      last :
          (s : WorkSprint)
          → (s ≡ new_sprint dto new_id now) ⊎ ⊥
          → later s.start_date s.end_date ≡ false
      last s (inl q) = rw q created.1
      last s (inr q) = absurd q

      pair :
          (p : String) (s t : WorkSprint)
          → In s sprints ⊎ ((s ≡ new_sprint dto new_id now) ⊎ ⊥)
          → In t sprints ⊎ ((t ≡ new_sprint dto new_id now) ⊎ ⊥)
          → is_active_of p s ≡ true
          → is_active_of p t ≡ true
          → s.id ≡ t.id
      pair p s t (inl a) (inl b) sa ta = one p s t a b sa ta
      pair p s t (inr (inl a)) (inr (inl b)) sa ta = cc
      pair p s t (inl a) (inr (inl b)) sa ta = absurd (fresh one p t s b a ta sa)
      pair p s t (inr (inl a)) (inl b) sa ta = absurd (fresh one p s t a b sa ta)
      pair p s t (inr (inr a)) m sa ta = absurd a
      pair p s t m (inr (inr b)) sa ta = absurd b

module _ (sprints sprints' : List WorkSprint) (id : String) (dto : UpdateWorkSprintDto) (now : ℕ)
    (saved : update_sprint sprints id dto now ≡ ok sprints') where
  updated :
      (sprint : WorkSprint) × (find (λ (s : WorkSprint). s.id == id) sprints ≡ some sprint)
      × (sprints' ≡ save_sprint (patched_sprint sprint dto now) sprints)
      × (later (coalesce dto.start_date sprint.start_date) (coalesce dto.end_date sprint.end_date)
          ≡ false)
      × (check_activation sprints sprint dto ≡ ok tt)
  unfolding update_sprint assert_sprint_dates
  updated = elim (Option-cases (find (λ (s : WorkSprint). s.id == id) sprints)) [
    | inl missed ↦ absurd (cc (rw (missed, update_sprint) at saved))
    | inr (sprint, found) ↦
        let e : (assert_sprint_dates (coalesce dto.start_date sprint.start_date)
                (coalesce dto.end_date sprint.end_date)
              >> (check_activation sprints sprint dto
                  >> ok (save_sprint (patched_sprint sprint dto now) sprints)))
            ≡ ok sprints' =
          rw (found, update_sprint) at saved in
        let (dated, e') =
          >>-eq-ok
            (throw_if
              (later (coalesce dto.start_date sprint.start_date)
                (coalesce dto.end_date sprint.end_date))
              bad_request)
            (check_activation sprints sprint dto
              >> ok (save_sprint (patched_sprint sprint dto now) sprints))
            e in
        let (checked, e'') =
          >>-eq-ok (check_activation sprints sprint dto)
            (ok (save_sprint (patched_sprint sprint dto now) sprints)) e' in
        (sprint, found, ground arith, ground arith, checked)
  ]

  row_cases :
      (row s : WorkSprint)
      → In s (save_sprint row sprints)
      → (s ≡ row) ⊎ (In s sprints × ((s.id == row.id) ≡ false))
  row_cases row s m =
      let (s0, there, same) =
        In-map (λ (x : WorkSprint). if x.id == row.id then row else x) s sprints m in
      elim (Bool-cases (s0.id == row.id)) [
        | inl hit ↦ inl (rw hit at same)
        | inr miss ↦
            let kept : s ≡ s0 = rw miss at same in
            inr (
              subst (λ x. In x sprints) (sym kept) there,
              subst (λ (x : WorkSprint). (x.id == row.id) ≡ false) (sym kept) miss,
            )
      ]

  coalesce-later :
      (start stop : Option ℕ)
      → later (coalesce dto.start_date start) (coalesce dto.end_date stop) ≡ false
      → later (assigned dto.start_date start) (assigned dto.end_date stop) ≡ false
  coalesce-later start stop h = ground arith

  -- The row that is written, if it is active, has the id of any other active row of its project.
  patched_alone :
      OneActive sprints
      → (sprint : WorkSprint) → In sprint sprints
      → check_activation sprints sprint dto ≡ ok tt
      → (p : String) (t : WorkSprint) → In t sprints
      → is_active_of p (patched_sprint sprint dto now) ≡ true
      → is_active_of p t ≡ true
      → sprint.id ≡ t.id
  unfolding check_activation
  patched_alone one sprint there checked p t m sa ta =
      let (here, live) = and-eq-true _ _ sa in
      let project : sprint.project_id ≡ some p = beq→eq sprint.project_id (some p) here in
      elim (Bool-cases (is_active sprint.status)) [
        | inl already ↦ one p sprint t there m (rw already (ground (arith))) ta
        | inr starts ↦
            let asked : is_active_status dto.status ≡ true = ground arith in
            let passed : assert_no_active_sprint sprints p (some sprint.id) ≡ ok tt =
              rw (asked, starts, project, check_activation) at checked in
            cc (no_other sprints p (some sprint.id) t one passed m ta)
      ]

  -- Updating a sprint, where it is accepted, keeps one active sprint for each project, and every
  -- sprint's end at or after its start, if both hold before.
  pub update_sprint-OneActive :
      OneActive sprints × DatesOrdered sprints → OneActive sprints' × DatesOrdered sprints'
  update_sprint-OneActive (one, dates) =
      let (sprint, found, stored, dated, checked) = updated in
      let (there, _) = find_sound (λ (s : WorkSprint). s.id == id) sprints found in
      let row = patched_sprint sprint dto now in
      let alone = patched_alone one sprint there checked in
      let cases = λ (s : WorkSprint) (m : In s sprints'). row_cases row s (rw stored at m) in
      (
        λ p s t ms mt sa ta. elim (cases s ms) [
          | inl q ↦ elim (cases t mt) [
            | inl r ↦ cc
            | inr r ↦ cc (q, alone p t r.0 (subst (λ x. is_active_of p x ≡ true) q sa) ta)
          ]
          | inr q ↦ elim (cases t mt) [
            | inl r ↦ cc (r, alone p s q.0 (subst (λ x. is_active_of p x ≡ true) r ta) sa)
            | inr r ↦ one p s t q.0 r.0 sa ta
          ]
        ],
        λ s m. elim (cases s m) [
          | inl q ↦
              subst (λ (x : WorkSprint). later x.start_date x.end_date ≡ false) (sym q)
                (coalesce-later sprint.start_date sprint.end_date dated)
          | inr q ↦ dates s q.0
        ],
      )
