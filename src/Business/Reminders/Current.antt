-- ===== src/Business/Reminders/Current.antt =====
-- The reminders that `syncAutomaticReminders` of src/business/business-operations.service.ts leaves, beside
-- the documents that are due.
use nola_hq_backend.Common.{
  ◌≡◌, refl, ◌⊎◌, inl, inr, Bool, true, false, not, ◌&&◌, some, List, [], ◌∷◌, map, ◌==◌, string_eq,
  option_eq, any, beq_self, beq→eq, if◌then◌else◌, String, In, All, All-In, contains, contains→In,
  In→contains, Bool-cases, arith,
}
use nola_hq_backend.Business.Invoices.{BusinessInvoice}
use nola_hq_backend.Business.Quotes.{BusinessQuote}
use nola_hq_backend.Business.Reminders.{
  BusinessReminder, pending, dismissed, ContractTerm, Today, Upsert, upserts_of, is_waiting,
  is_gone, upsert_automatic, upsert_all, is_obsolete, fingerprints_of, sync,
}
use nola_hq_backend.Business.Reminders.Due.{Due, active-Due}
use nola_hq_backend.Business.Reminders.Listed.{Due-active}

-- A pending reminder has the fingerprint.
abbrev pub has_pending : String → List BusinessReminder → Bool
has_pending f rows =
    any (λ (r : BusinessReminder). r.fingerprint == some f && is_waiting r.status) rows

-- A reminder that is done or dismissed has it.
abbrev pub has_settled : String → List BusinessReminder → Bool
has_settled f rows =
    any (λ (r : BusinessReminder). r.fingerprint == some f && not (is_waiting r.status)) rows

module _ (day : Today) (u : Upsert) where
  upsert_automatic-reminds :
      (rows : List BusinessReminder)
      → (has_pending u.fingerprint (upsert_automatic day rows u) ≡ true)
        ⊎ (has_settled u.fingerprint rows ≡ true)
  unfolding upsert_automatic
  upsert_automatic-reminds [] = inl (rw (beq_self (some u.fingerprint)) refl)
  upsert_automatic-reminds (r ∷ rows) = elim (Bool-cases (r.fingerprint == some u.fingerprint)) [
    | inl hit ↦ elim (Bool-cases (is_waiting r.status)) [
      | inl waiting ↦ inl (rw (hit, waiting, hit, waiting) refl)
      | inr settled ↦ inr (rw (hit, settled) refl)
    ]
    | inr miss ↦ elim (upsert_automatic-reminds rows) [
      | inl reminded ↦ inl (rw (miss, miss) reminded)
      | inr settled ↦ inr (rw miss settled)
    ]
  ]

  upsert_automatic-pending :
      (rows : List BusinessReminder) (f : String)
      → has_pending f rows ≡ true
      → has_pending f (upsert_automatic day rows u) ≡ true
  unfolding upsert_automatic
  upsert_automatic-pending [] f h = cc
  upsert_automatic-pending (r ∷ rows) f h =
      elim (Bool-cases (r.fingerprint == some u.fingerprint)) [
        | inl hit ↦ elim (Bool-cases (is_waiting r.status)) [
          | inl waiting ↦ rw (hit, waiting) h
          | inr settled ↦ rw (hit, settled) h
        ]
        | inr miss ↦ rw miss (ground (arith, upsert_automatic-pending rows f))
      ]

  upsert_automatic-settled :
      (rows : List BusinessReminder) (f : String)
      → has_settled f (upsert_automatic day rows u) ≡ true
      → has_settled f rows ≡ true
  unfolding upsert_automatic
  upsert_automatic-settled [] f h = ground arith
  upsert_automatic-settled (r ∷ rows) f h =
      elim (Bool-cases (r.fingerprint == some u.fingerprint)) [
        | inl hit ↦ elim (Bool-cases (is_waiting r.status)) [
          | inl waiting ↦ rw (hit, waiting) at h
          | inr settled ↦ rw (hit, settled) at h
        ]
        | inr miss ↦ let h' = rw miss at h in ground (arith, upsert_automatic-settled rows f)
      ]

module _ (day : Today) where
  upsert_all-pending :
      (rows : List BusinessReminder) (upserts : List Upsert) (f : String)
      → has_pending f rows ≡ true
      → has_pending f (upsert_all day rows upserts) ≡ true
  upsert_all-pending rows [] f h = h
  upsert_all-pending rows (u ∷ upserts) f h =
      upsert_all-pending (upsert_automatic day rows u) upserts f
        (upsert_automatic-pending day u rows f h)

  upsert_all-reminds :
      (rows : List BusinessReminder) (upserts : List Upsert) (f : String)
      → In f (fingerprints_of upserts)
      → (has_pending f (upsert_all day rows upserts) ≡ true) ⊎ (has_settled f rows ≡ true)
  upsert_all-reminds rows [] f m = absurd m
  upsert_all-reminds rows (u ∷ upserts) f (inl e) = elim (upsert_automatic-reminds day u rows) [
    | inl reminded ↦
        inl (upsert_all-pending (upsert_automatic day rows u) upserts f (rw e reminded))
    | inr settled ↦ inr (rw e settled)
  ]
  upsert_all-reminds rows (u ∷ upserts) f (inr m) =
      elim (upsert_all-reminds (upsert_automatic day rows u) upserts f m) [
        | inl reminded ↦ inl reminded
        | inr settled ↦ inr (upsert_automatic-settled day u rows f settled)
      ]

-- The pass that dismisses.
abbrev dismiss : Today → List String → BusinessReminder → BusinessReminder
dismiss day active r =
    if is_obsolete active r then (record r { status = dismissed; updated_at = day.now }) else r

dismiss-current :
    (day : Today) (active : List String) (rows : List BusinessReminder)
    → All (λ (r : BusinessReminder). is_obsolete active r ≡ false) (map (dismiss day active) rows)
dismiss-current day active [] = tt
dismiss-current day active (r ∷ rows) = (
  elim (Bool-cases (is_obsolete active r)) [
    | inl old ↦ rw old (ground arith)
    | inr current ↦ rw current current
  ],
  dismiss-current day active rows,
)

-- The pass that dismisses leaves the reminders of what is due.
kept_due :
    (active : List String) (r : BusinessReminder) (f : String)
    → contains active f ≡ true
    → is_obsolete active r ≡ true
    → (r.fingerprint == some f) ≡ false
kept_due active r f known old = elim (Bool-cases (r.fingerprint == some f)) [
  | inr other ↦ other
  | inl hit ↦
      let named = beq→eq r.fingerprint (some f) hit in
      let gone : is_gone active r.fingerprint ≡ true = ground arith in
      let gone' : is_gone active (some f) ≡ true = rw named at gone in absurd (ground arith)
]

dismiss-pending :
    (day : Today) (active : List String) (rows : List BusinessReminder) (f : String)
    → contains active f ≡ true
    → has_pending f rows ≡ true
    → has_pending f (map (dismiss day active) rows) ≡ true
dismiss-pending day active [] f known h = cc
dismiss-pending day active (r ∷ rows) f known h = elim (Bool-cases (is_obsolete active r)) [
  | inl old ↦
      let other = kept_due active r f known old in
      rw (old, other) (dismiss-pending day active rows f known (rw other at h))
  | inr current ↦ rw current (ground (arith, dismiss-pending day active rows f known))
]

module _ (day : Today) (rows : List BusinessReminder) (invoices : List BusinessInvoice)
    (quotes : List BusinessQuote) (contracts : List ContractTerm) where
  -- After a sync, every document that is due has a pending reminder with its fingerprint, but for
  -- one whose reminder was done or dismissed before. Due are an invoice that is not a draft, paid or
  -- cancelled and falls due within 7 days, a draft or sent quote that expires within 7 days, and a
  -- signed or active contract that ends within 14 days.
  pub sync-reminds :
      (f : String)
      → Due day invoices quotes contracts f
      → (has_pending f (sync day rows invoices quotes contracts) ≡ true)
        ⊎ (has_settled f rows ≡ true)
  unfolding sync
  sync-reminds f due =
      let upserts = upserts_of day invoices quotes contracts in
      let active = fingerprints_of upserts in
      let m = Due-active day invoices quotes contracts f due in
      elim (upsert_all-reminds day rows upserts f m) [
        | inr settled ↦ inr settled
        | inl reminded ↦ inl (
            dismiss-pending day active (upsert_all day rows upserts) f (In→contains active f m)
              reminded)
      ]

  -- After a sync, a pending automatic reminder that has a fingerprint is of a document that is due.
  pub sync-current :
      (r : BusinessReminder) (f : String)
      → In r (sync day rows invoices quotes contracts)
      → r.automatic ≡ true
      → r.status ≡ pending
      → r.fingerprint ≡ some f
      → Due day invoices quotes contracts f
  unfolding sync
  sync-current r f m automatic waiting named =
      let upserts = upserts_of day invoices quotes contracts in
      let active = fingerprints_of upserts in
      let current : is_obsolete active r ≡ false =
        All-In (λ (x : BusinessReminder). is_obsolete active x ≡ false) _
          (dismiss-current day active (upsert_all day rows upserts)) r m in
      let known : contains active f ≡ true = elim (Bool-cases (contains active f)) [
        | inl k ↦ k
        | inr missing ↦ absurd (cc (rw (automatic, waiting, named, missing) at current))
      ] in
      active-Due day invoices quotes contracts f (contains→In active f known)
