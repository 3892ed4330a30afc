-- ===== src/Business/Reminders/Due.antt =====
-- The documents that are due for a reminder, apart from the loops of `syncAutomaticReminders` of
-- src/business/business-operations.service.ts that look for them.
use nola_hq_backend.Common.{
  ◌≡◌, ◌≢◌, ◌≤◌, refl, ◌⊎◌, inl, inr, true, not, ◌||◌, some, ℕ, List, [], ◌∷◌, ◌++◌, In, In-map,
  In-map_of, In-append_cases, ltb, String, arith, Bool-cases, Option-cases,
}
use Prim.Native.String.{◌++◌ as str_append}
use nola_hq_backend.Business.Invoices.{
  BusinessInvoiceStatus, draft as invoice_draft, paid as invoice_paid,
  cancelled as invoice_cancelled, BusinessInvoice,
}
use nola_hq_backend.Business.Quotes.{
  BusinessQuoteStatus, draft as quote_draft, sent as quote_sent, BusinessQuote,
}
use nola_hq_backend.Business.Reminders.{
  BusinessContractStatus, signed, active, ContractTerm, Today, Upsert, asks_payment, is_offered,
  is_running, invoice_upserts, quote_upserts, contract_upserts, upserts_of, fingerprints_of,
}

-- An invoice that was sent and waits for its payment, and falls due within a week.
abbrev pub InvoiceDue : Today → BusinessInvoice → Type 0
InvoiceDue day i =
    (i.status ≢ invoice_draft)
    × (i.status ≢ invoice_paid)
    × (i.status ≢ invoice_cancelled)
    × (i.due_on ≤ day.in_7_days)

-- A quote without an answer that expires within a week.
abbrev pub QuoteDue : Today → BusinessQuote → Type 0
QuoteDue day q =
    ((q.status ≡ quote_draft) ⊎ (q.status ≡ quote_sent)) × (q.valid_until ≤ day.in_7_days)

-- A contract in force that ends within two weeks.
abbrev pub ContractDue : Today → ContractTerm → Type 0
ContractDue day c =
    ((c.status ≡ signed) ⊎ (c.status ≡ active))
    × ((last : ℕ) × (c.end_date ≡ some last) × (last ≤ day.in_14_days))

-- A fingerprint of a document that is due.
abbrev pub Due :
    Today → List BusinessInvoice → List BusinessQuote → List ContractTerm → String → Type 0
Due day invoices quotes contracts f =
    ((i : BusinessInvoice) × In i invoices
      × (InvoiceDue day i × (f ≡ str_append "invoice-due:" i.id)))
    ⊎ (((q : BusinessQuote) × In q quotes
          × (QuoteDue day q × (f ≡ str_append "quote-expiry:" q.id)))
        ⊎ ((c : ContractTerm) × In c contracts
            × (ContractDue day c × (f ≡ str_append "contract-end:" c.id))))

asks-awaited :
    (s : BusinessInvoiceStatus)
    → asks_payment s ≡ true
    → (s ≢ invoice_draft) × (s ≢ invoice_paid) × (s ≢ invoice_cancelled)
asks-awaited s h = (λ e. cc (rw e at h), λ e. cc (rw e at h), λ e. cc (rw e at h))

offered-open :
    (s : BusinessQuoteStatus) → is_offered s ≡ true → (s ≡ quote_draft) ⊎ (s ≡ quote_sent)
offered-open quote_draft h = inl refl
offered-open quote_sent h = inr refl
offered-open _ h = cc

running-open : (s : BusinessContractStatus) → is_running s ≡ true → (s ≡ signed) ⊎ (s ≡ active)
running-open signed h = inl refl
running-open active h = inr refl
running-open _ h = cc

first_or_later :
    {A : Type 0} (P : A → Type 0) (a : A) (rows : List A)
    → P a ⊎ ((d : A) × In d rows × P d)
    → (d : A) × In d (a ∷ rows) × P d
first_or_later P a rows (inl p) = (a, inl refl, p)
first_or_later P a rows (inr (d, there, p)) = (d, inr there, p)

abbrev pub fingerprint_of : Upsert → String
fingerprint_of u = u.fingerprint

pub fingerprint_listed :
    (u : Upsert) (f : String) (upserts : List Upsert)
    → f ≡ u.fingerprint
    → In u upserts
    → In f (fingerprints_of upserts)
fingerprint_listed u f upserts same m = rw same (In-map_of fingerprint_of u upserts m)

module _ (day : Today) where
  invoice-due :
      (rows : List BusinessInvoice) (f : String)
      → In f (fingerprints_of (invoice_upserts day rows))
      → (i : BusinessInvoice) × In i rows
        × (InvoiceDue day i × (f ≡ str_append "invoice-due:" i.id))
  invoice-due [] f m = absurd m
  invoice-due (i ∷ rows) f m =
      let Named =
        λ (d : BusinessInvoice). InvoiceDue day d × (f ≡ str_append "invoice-due:" d.id) in
      elim (Bool-cases (not (asks_payment i.status) || ltb day.in_7_days i.due_on)) [
        | inl skipped ↦ first_or_later Named i rows (inr (invoice-due rows f (rw skipped at m)))
        | inr kept ↦
            let due : InvoiceDue day i =
              let (a, b, c) = asks-awaited i.status (ground arith) in (a, b, c, ground arith) in
            let m' : (f ≡ str_append "invoice-due:" i.id)
                ⊎ In f (fingerprints_of (invoice_upserts day rows)) =
              rw kept at m in
            elim m' [
              | inl e ↦ first_or_later Named i rows (inl (due, e))
              | inr later ↦ first_or_later Named i rows (inr (invoice-due rows f later))
            ]
      ]

  quote-due :
      (rows : List BusinessQuote) (f : String)
      → In f (fingerprints_of (quote_upserts day rows))
      → (q : BusinessQuote) × In q rows × (QuoteDue day q × (f ≡ str_append "quote-expiry:" q.id))
  quote-due [] f m = absurd m
  quote-due (q ∷ rows) f m =
      let Named = λ (d : BusinessQuote). QuoteDue day d × (f ≡ str_append "quote-expiry:" d.id) in
      elim (Bool-cases (not (is_offered q.status) || ltb day.in_7_days q.valid_until)) [
        | inl skipped ↦ first_or_later Named q rows (inr (quote-due rows f (rw skipped at m)))
        | inr kept ↦
            let due : QuoteDue day q = (offered-open q.status (ground arith), ground arith) in
            let m' : (f ≡ str_append "quote-expiry:" q.id)
                ⊎ In f (fingerprints_of (quote_upserts day rows)) =
              rw kept at m in
            elim m' [
              | inl e ↦ first_or_later Named q rows (inl (due, e))
              | inr later ↦ first_or_later Named q rows (inr (quote-due rows f later))
            ]
      ]

  contract-due :
      (rows : List ContractTerm) (f : String)
      → In f (fingerprints_of (contract_upserts day rows))
      → (c : ContractTerm) × In c rows × (ContractDue day c × (f ≡ str_append "contract-end:" c.id))
  contract-due [] f m = absurd m
  contract-due (c ∷ rows) f m =
      let Named = λ (d : ContractTerm). ContractDue day d × (f ≡ str_append "contract-end:" d.id) in
      elim (Option-cases c.end_date) [
        | inl open_ended ↦
            first_or_later Named c rows (inr (contract-due rows f (rw open_ended at m)))
        | inr (last, ends) ↦
            elim (Bool-cases (not (is_running c.status) || ltb day.in_14_days last)) [
              | inl skipped ↦
                  first_or_later Named c rows (inr (contract-due rows f (rw (ends, skipped) at m)))
              | inr kept ↦
                  let due : ContractDue day c =
                    (running-open c.status (ground arith), (last, ends, ground arith)) in
                  let m' : (f ≡ str_append "contract-end:" c.id)
                      ⊎ In f (fingerprints_of (contract_upserts day rows)) =
                    rw (ends, kept) at m in
                  elim m' [
                    | inl e ↦ first_or_later Named c rows (inl (due, e))
                    | inr later ↦ first_or_later Named c rows (inr (contract-due rows f later))
                  ]
            ]
      ]

  module _ (invoices : List BusinessInvoice) (quotes : List BusinessQuote)
      (contracts : List ContractTerm) where
    -- A fingerprint that a sync looks for is that of a document that is due.
    pub active-Due :
        (f : String)
        → In f (fingerprints_of (upserts_of day invoices quotes contracts))
        → Due day invoices quotes contracts f
    active-Due f m =
        let (u, there, same) =
          In-map fingerprint_of f (upserts_of day invoices quotes contracts) m in
        let named =
          λ (upserts : List Upsert) (at : In u upserts). fingerprint_listed u f upserts same at in
        elim (In-append_cases u (invoice_upserts day invoices ++ quote_upserts day quotes)
          (contract_upserts day contracts) there) [
            | inr c ↦
                inr (inr (contract-due contracts f (named (contract_upserts day contracts) c)))
            | inl iq ↦
                elim (In-append_cases u (invoice_upserts day invoices) (quote_upserts day quotes)
                  iq) [
                    | inl i ↦ inl (invoice-due invoices f (named (invoice_upserts day invoices) i))
                    | inr q ↦ inr (inl (quote-due quotes f (named (quote_upserts day quotes) q)))
                  ]
          ]
