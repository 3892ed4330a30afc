-- ===== src/Business/Reminders/Listed.antt =====
-- The loops of `syncAutomaticReminders` of src/business/business-operations.service.ts list each document that
-- is due.
use nola_hq_backend.Common.{
  ◌≡◌, ◌≢◌, ◌≤◌, refl, ◌⊎◌, inl, inr, true, false, not, ◌||◌, some, List, [], ◌∷◌, ◌++◌, In, In-map,
  In-append_left, In-append_right, ltb, String, arith, Bool-cases, Option-cases,
}
use Prim.Native.String.{◌++◌ as str_append}
use nola_hq_backend.Business.Invoices.{
  BusinessInvoiceStatus, draft as invoice_draft, paid as invoice_paid,
  cancelled as invoice_cancelled, BusinessInvoice,
}
use nola_hq_backend.Business.Quotes.{
  BusinessQuoteStatus, draft as quote_draft, sent as quote_sent, BusinessQuote,
}
use nola_hq_backend.Business.Reminders.{
  BusinessContractStatus, signed, active, ContractTerm, Today, asks_payment, is_offered, is_running,
  invoice_upserts, quote_upserts, contract_upserts, upserts_of, fingerprints_of,
}
use nola_hq_backend.Business.Reminders.Due.{
  InvoiceDue, QuoteDue, ContractDue, Due, fingerprint_of, fingerprint_listed,
}

open-offered :
    (s : BusinessQuoteStatus) → (s ≡ quote_draft) ⊎ (s ≡ quote_sent) → is_offered s ≡ true
open-offered s (inl e) = rw e refl
open-offered s (inr e) = rw e refl

open-running : (s : BusinessContractStatus) → (s ≡ signed) ⊎ (s ≡ active) → is_running s ≡ true
open-running s (inl e) = rw e refl
open-running s (inr e) = rw e refl

awaited-asks :
    (s : BusinessInvoiceStatus)
    → s ≢ invoice_draft
    → s ≢ invoice_paid
    → s ≢ invoice_cancelled
    → asks_payment s ≡ true
awaited-asks invoice_draft a b c = absurd (a refl)
awaited-asks invoice_paid a b c = absurd (b refl)
awaited-asks invoice_cancelled a b c = absurd (c refl)
awaited-asks _ a b c = refl

module _ (day : Today) where
  invoice-listed :
      (rows : List BusinessInvoice) (d : BusinessInvoice)
      → In d rows
      → InvoiceDue day d
      → In (str_append "invoice-due:" d.id) (fingerprints_of (invoice_upserts day rows))
  invoice-listed [] d m due = absurd m
  invoice-listed (i ∷ rows) d m due =
      elim (Bool-cases (not (asks_payment i.status) || ltb day.in_7_days i.due_on)) [
        | inl skipped ↦ elim m [
          | inr later ↦ rw skipped (invoice-listed rows d later due)
          | inl e ↦
              let (a, b, c, soon) = due in
              let asks = awaited-asks d.status a b c in
              let asks' : asks_payment i.status ≡ true = rw (← e) asks in
              let soon' : i.due_on ≤ day.in_7_days = rw (← e) soon in absurd (ground arith)
        ]
        | inr kept ↦ elim m [
          | inl e ↦ rw kept (inl (rw e refl))
          | inr later ↦ rw kept (inr (invoice-listed rows d later due))
        ]
      ]

  quote-listed :
      (rows : List BusinessQuote) (d : BusinessQuote)
      → In d rows
      → QuoteDue day d
      → In (str_append "quote-expiry:" d.id) (fingerprints_of (quote_upserts day rows))
  quote-listed [] d m due = absurd m
  quote-listed (q ∷ rows) d m due =
      elim (Bool-cases (not (is_offered q.status) || ltb day.in_7_days q.valid_until)) [
        | inl skipped ↦ elim m [
          | inr later ↦ rw skipped (quote-listed rows d later due)
          | inl e ↦
              let (open_status, soon) = due in
              let offered = open-offered d.status open_status in
              let offered' : is_offered q.status ≡ true = rw (← e) offered in
              let soon' : q.valid_until ≤ day.in_7_days = rw (← e) soon in absurd (ground arith)
        ]
        | inr kept ↦ elim m [
          | inl e ↦ rw kept (inl (rw e refl))
          | inr later ↦ rw kept (inr (quote-listed rows d later due))
        ]
      ]

  contract-kept :
      (c : ContractTerm) (rows : List ContractTerm) (d : ContractTerm)
      → In (str_append "contract-end:" d.id) (fingerprints_of (contract_upserts day rows))
      → In (str_append "contract-end:" d.id) (fingerprints_of (contract_upserts day (c ∷ rows)))
  contract-kept c rows d m = elim (Option-cases c.end_date) [
    | inl open_ended ↦ rw open_ended m
    | inr (last, ends) ↦ elim (Bool-cases (not (is_running c.status) || ltb day.in_14_days last)) [
      | inl skipped ↦ rw (ends, skipped) m
      | inr kept ↦ rw (ends, kept) (inr m)
    ]
  ]

  contract-listed :
      (rows : List ContractTerm) (d : ContractTerm)
      → In d rows
      → ContractDue day d
      → In (str_append "contract-end:" d.id) (fingerprints_of (contract_upserts day rows))
  contract-listed [] d m due = absurd m
  contract-listed (c ∷ rows) d m due = elim m [
    | inl e ↦
        let (open_status, (last, ends, soon)) = due in
        let ends' : c.end_date ≡ some last = rw (← e) ends in
        let running = open-running d.status open_status in
        let running' : is_running c.status ≡ true = rw (← e) running in
        let kept : (not (is_running c.status) || ltb day.in_14_days last) ≡ false = ground arith in
        rw (ends', kept) (inl (rw e refl))
    | inr later ↦ contract-kept c rows d (contract-listed rows d later due)
  ]

  module _ (invoices : List BusinessInvoice) (quotes : List BusinessQuote)
      (contracts : List ContractTerm) where
    -- The fingerprints of the documents that are due are those that a sync looks for.
    pub Due-active :
        (f : String)
        → Due day invoices quotes contracts f
        → In f (fingerprints_of (upserts_of day invoices quotes contracts))
    Due-active f (inl (i, there, (due, e))) =
        let (u, at, same) =
          In-map fingerprint_of f (invoice_upserts day invoices)
            (rw e (invoice-listed invoices i there due)) in
        fingerprint_listed u f (upserts_of day invoices quotes contracts) same (
          In-append_left u (invoice_upserts day invoices ++ quote_upserts day quotes)
            (contract_upserts day contracts)
            (In-append_left u (invoice_upserts day invoices) (quote_upserts day quotes) at))
    Due-active f (inr (inl (q, there, (due, e)))) =
        let (u, at, same) =
          In-map fingerprint_of f (quote_upserts day quotes)
            (rw e (quote-listed quotes q there due)) in
        fingerprint_listed u f (upserts_of day invoices quotes contracts) same (
          In-append_left u (invoice_upserts day invoices ++ quote_upserts day quotes)
            (contract_upserts day contracts)
            (In-append_right u (invoice_upserts day invoices) (quote_upserts day quotes) at))
    Due-active f (inr (inr (c, there, (due, e)))) =
        let (u, at, same) =
          In-map fingerprint_of f (contract_upserts day contracts)
            (rw e (contract-listed contracts c there due)) in
        fingerprint_listed u f (upserts_of day invoices quotes contracts) same (
          In-append_right u (invoice_upserts day invoices ++ quote_upserts day quotes)
            (contract_upserts day contracts) at)
