-- ===== src/Business/Reminders/Settled.antt =====
-- Rows that `syncAutomaticReminders` of src/business/business-operations.service.ts leaves alone.
use nola_hq_backend.Common.{
  ◌≡◌, refl, Bool, true, false, ◌&&◌, beq→eq, Option, none, some, List, [], ◌∷◌, ◌==◌, string_eq,
  option_eq, if◌then◌else◌, String, ◌⊎◌, inl, inr, In, In-map_of, Bool-cases, arith,
}
use nola_hq_backend.Business.Invoices.{BusinessInvoice}
use nola_hq_backend.Business.Quotes.{BusinessQuote}
use nola_hq_backend.Business.Invoices.Rows.{is_given}
use nola_hq_backend.Business.Reminders.{
  BusinessReminder, dismissed, ContractTerm, Today, Upsert, upserts_of, is_waiting, is_gone,
  refreshed, upsert_automatic, upsert_all, is_obsolete, fingerprints_of, sync,
}

-- The days and the rows of a run of syncs.
pub record Visit : Type 0 where
  pub day : Today
  pub invoices : List BusinessInvoice
  pub quotes : List BusinessQuote
  pub contracts : List ContractTerm

abbrev pub syncs : List BusinessReminder → List Visit → List BusinessReminder
syncs rows [] = rows
syncs rows (v ∷ visits) = syncs (sync v.day rows v.invoices v.quotes v.contracts) visits

-- What a sync may write: a pending reminder with a fingerprint.
abbrev pub is_synced : BusinessReminder → Bool
is_synced r = is_waiting r.status && is_given r.fingerprint

upsert_automatic-settled :
    (day : Today) (rows : List BusinessReminder) (u : Upsert) (r : BusinessReminder)
    → is_synced r ≡ false
    → In r rows
    → In r (upsert_automatic day rows u)
unfolding upsert_automatic
upsert_automatic-settled day [] u r settled m = absurd m
upsert_automatic-settled day (x ∷ rows) u r settled m =
    elim (Bool-cases (x.fingerprint == some u.fingerprint)) [
      | inl hit ↦ rw hit (at_hit hit m)
      | inr miss ↦ rw miss (at_miss m (upsert_automatic-settled day rows u r settled))
    ]
  where
    at_hit :
        (x.fingerprint == some u.fingerprint) ≡ true
        → (r ≡ x) ⊎ In r rows
        → (r ≡ refreshed day u x) ⊎ In r rows
    at_hit hit (inl e) =
        let named : x.fingerprint ≡ some u.fingerprint =
          beq→eq x.fingerprint (some u.fingerprint) hit in
        let given : is_given x.fingerprint ≡ true = rw named refl in
        let kept : (is_waiting x.status && is_given x.fingerprint) ≡ false = rw (← e) settled in
        let still : is_waiting x.status ≡ false = ground arith in inl (rw still e)
    at_hit hit (inr later) = inr later

    at_miss :
        (r ≡ x) ⊎ In r rows
        → (In r rows → In r (upsert_automatic day rows u))
        → (r ≡ x) ⊎ In r (upsert_automatic day rows u)
    at_miss (inl e) later = inl e
    at_miss (inr m) later = inr (later m)

upsert_all-settled :
    (day : Today) (rows : List BusinessReminder) (upserts : List Upsert) (r : BusinessReminder)
    → is_synced r ≡ false
    → In r rows
    → In r (upsert_all day rows upserts)
upsert_all-settled day rows [] r settled m = m
upsert_all-settled day rows (u ∷ upserts) r settled m =
    upsert_all-settled day (upsert_automatic day rows u) upserts r settled
      (upsert_automatic-settled day rows u r settled m)

not_obsolete :
    (active : List String) (r : BusinessReminder)
    → is_synced r ≡ false
    → is_obsolete active r ≡ false
not_obsolete active r settled = go r.fingerprint settled
  where
    go :
        (f : Option String)
        → (is_waiting r.status && is_given f) ≡ false
        → (r.automatic && is_waiting r.status && is_gone active f) ≡ false
    go none h = ground arith
    go (some f) h = ground arith

sync-settled :
    (day : Today) (rows : List BusinessReminder) (invoices : List BusinessInvoice)
    (quotes : List BusinessQuote) (contracts : List ContractTerm) (r : BusinessReminder)
    → is_synced r ≡ false
    → In r rows
    → In r (sync day rows invoices quotes contracts)
unfolding sync
sync-settled day rows invoices quotes contracts r settled m =
    let upserts = upserts_of day invoices quotes contracts in
    let written = λ (x : BusinessReminder).
      if is_obsolete (fingerprints_of upserts) x
      then (record x { status = dismissed; updated_at = day.now })
      else x in
    let there = In-map_of written r _ (upsert_all-settled day rows upserts r settled m) in
    let current : is_obsolete (fingerprints_of upserts) r ≡ false =
      not_obsolete (fingerprints_of upserts) r settled in
    rw current at there

-- A reminder that is done or dismissed, or that has no fingerprint, stays in the table as it is,
-- through any number of syncs.
pub syncs-settled :
    (rows : List BusinessReminder) (visits : List Visit) (r : BusinessReminder)
    → is_synced r ≡ false
    → In r rows
    → In r (syncs rows visits)
syncs-settled rows [] r settled m = m
syncs-settled rows (v ∷ visits) r settled m =
    syncs-settled (sync v.day rows v.invoices v.quotes v.contracts) visits r settled
      (sync-settled v.day rows v.invoices v.quotes v.contracts r settled m)
