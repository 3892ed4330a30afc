-- ===== src/Business/Invoices/Balance.antt =====
-- What the amounts, the status and the receipt of an invoice have to do with each other.
use nola_hq_backend.Common.{
  ℕ, ◌+◌, ◌≤◌, ◌<◌, ◌≡◌, ◌≢◌, refl, true, false, not, ◌&&◌, Option, none, some, List, [], ◌∷◌, ◌⊎◌,
  inl, inr, ◌==◌, nat_eq, option_eq, ltb, leb, ok, throw_if, bad_request, arith, Bool-cases,
  >>-eq-ok,
}
use mathlib.Core.Option.{get_or}
use nola_hq_backend.WorkItems.Planning.Sprints.{assigned}
use nola_hq_backend.WorkItems.Service.Filing.{truthy}
use nola_hq_backend.Business.Invoices.{
  BusinessInvoice, BusinessInvoiceLine, BusinessInvoiceStatus, draft, paid, partial, sent, overdue,
  cancelled, unpaid_status, Services, subtotal_of, payment_status, checked_tax,
  UpdateBusinessInvoiceDto,
}
use nola_hq_backend.Business.Invoices.Rows.{is_given}
use nola_hq_backend.Business.Invoices.Service.{
  paid_time, or_old, written_money, changed, rate_changed, changes_financials, subtotal_for,
}

-- The amount is the lines' total with the tax on it, where there are lines.
abbrev pub Itemised : Services → List BusinessInvoiceLine → (tax_rate tax amount : ℕ) → Type 0
Itemised services [] tax_rate tax amount = Unit
Itemised services (line ∷ lines) tax_rate tax amount =
    let subtotal = subtotal_of (line ∷ lines) in
    (tax ≡ services.tax_on subtotal tax_rate) × (amount ≡ subtotal + tax)

-- The status says how much is paid, and a date of payment is kept by a paid invoice only.
abbrev pub Standing :
    BusinessInvoiceStatus → (amount paid_amount : ℕ) → (paid_at : Option ℕ) → Type 0
Standing status amount paid_amount paid_at = elim status [
  | paid ↦ (paid_amount ≡ amount) × (is_given paid_at ≡ true)
  | partial ↦ (0 < paid_amount) × (paid_amount < amount) × (paid_at ≡ none)
  | _ ↦ (paid_amount ≡ 0) × (paid_at ≡ none)
]

abbrev pub Receipted : BusinessInvoice → Type 0
Receipted i = is_given (truthy i.receipt_number) ≡ true

abbrev pub Balanced : Services → BusinessInvoice → Type 0
Balanced services i =
    (i.paid_amount_cdf ≤ i.amount_cdf)
    × Itemised services i.lines i.tax_rate i.tax_cdf i.amount_cdf
    × Standing i.status i.amount_cdf i.paid_amount_cdf i.paid_at
    × ((is_given (truthy i.receipt_number) ≡ false) ⊎ (i.paid_amount_cdf ≡ i.amount_cdf))

Standing-unpaid_status :
    (requested : BusinessInvoiceStatus) (amount paid_amount : ℕ) (old : Option ℕ) (now : ℕ)
    → paid_amount ≡ 0
    → let status = unpaid_status requested in
      Standing status amount paid_amount (paid_time status old now)
Standing-unpaid_status draft amount paid_amount old now unpaid = (unpaid, refl)
Standing-unpaid_status sent amount paid_amount old now unpaid = (unpaid, refl)
Standing-unpaid_status partial amount paid_amount old now unpaid = (unpaid, refl)
Standing-unpaid_status paid amount paid_amount old now unpaid = (unpaid, refl)
Standing-unpaid_status overdue amount paid_amount old now unpaid = (unpaid, refl)
Standing-unpaid_status cancelled amount paid_amount old now unpaid = (unpaid, refl)

-- `paymentStatus` gives the status that the amounts have.
pub Standing-payment_status :
    (requested : BusinessInvoiceStatus) (amount paid_amount : ℕ) (old : Option ℕ) (now : ℕ)
    → paid_amount ≤ amount
    → let status = payment_status requested amount paid_amount in
      Standing status amount paid_amount (paid_time status old now)
unfolding payment_status
Standing-payment_status requested amount paid_amount old now bound =
    elim (Bool-cases (leb amount paid_amount && ltb 0 amount)) [
      | inl full ↦ rw full (ground arith, refl)
      | inr part ↦ elim (Bool-cases (ltb 0 paid_amount)) [
        | inl some_paid ↦ rw (part, some_paid) (ground arith, ground arith, refl)
        | inr nothing ↦
            let unpaid : paid_amount ≡ 0 = ground arith in
            rw (part, nothing) (Standing-unpaid_status requested amount paid_amount old now unpaid)
      ]
    ]

pub checked_tax-some :
    (services : Services) (subtotal tax_rate amount tax : ℕ)
    → checked_tax services (some subtotal) tax_rate amount ≡ ok tax
    → (tax ≡ services.tax_on subtotal tax_rate) × (amount ≡ subtotal + tax)
unfolding checked_tax
checked_tax-some services subtotal tax_rate amount tax h =
    let (passed, e) =
      >>-eq-ok (throw_if (not (subtotal + services.tax_on subtotal tax_rate == amount)) bad_request)
        _ h in
    (cc e, ground arith)

-- Where the amount passes the check for the new lines, or for the lines that stay, it is itemised.
pub checked_tax-Itemised :
    (services : Services) (lines : Option (List BusinessInvoiceLine))
    (old : List BusinessInvoiceLine) (tax_rate amount tax : ℕ)
    → checked_tax services (subtotal_for lines old) tax_rate amount ≡ ok tax
    → Itemised services (get_or lines old) tax_rate tax amount
checked_tax-Itemised services none [] tax_rate amount tax h = tt
checked_tax-Itemised services none (line ∷ old) tax_rate amount tax h =
    checked_tax-some services (subtotal_of (line ∷ old)) tax_rate amount tax h
checked_tax-Itemised services (some []) old tax_rate amount tax h = tt
checked_tax-Itemised services (some (line ∷ lines)) old tax_rate amount tax h =
    checked_tax-some services (subtotal_of (line ∷ lines)) tax_rate amount tax h

-- A field that is not `null` is written as it was checked.
pub or_old-written :
    (asked : Option (Option ℕ)) (old : ℕ)
    → asked ≢ some none
    → or_old asked old ≡ written_money asked old
or_old-written none old h = refl
or_old-written (some (some v)) old h = refl
or_old-written (some none) old h = absurd (h refl)

pub changed-kept :
    (asked : Option (Option ℕ)) (old : ℕ)
    → changed asked old ≡ false
    → written_money asked old ≡ old
changed-kept none old h = refl
changed-kept (some none) old h = cc
changed-kept (some (some v)) old h = ground arith

rate_changed-kept :
    (asked : Option ℕ) (old : ℕ) → rate_changed asked old ≡ false → assigned asked old ≡ old
rate_changed-kept none old h = refl
rate_changed-kept (some v) old h = ground arith

is_given-none : {A : Type 0} (o : Option A) → is_given o ≡ false → o ≡ none
is_given-none none h = refl
is_given-none (some a) h = cc

-- What a receipted invoice keeps where an update of it is not refused.
pub changes_financials-kept :
    (item : BusinessInvoice) (dto : UpdateBusinessInvoiceDto)
    → changes_financials item dto ≡ false
    → (written_money dto.amount_cdf item.amount_cdf ≡ item.amount_cdf)
      × (written_money dto.paid_amount_cdf item.paid_amount_cdf ≡ item.paid_amount_cdf)
      × (assigned dto.tax_rate item.tax_rate ≡ item.tax_rate)
      × (dto.lines ≡ none)
unfolding changes_financials
changes_financials-kept item dto h =
    let a : changed dto.amount_cdf item.amount_cdf ≡ false = ground arith in
    let p : changed dto.paid_amount_cdf item.paid_amount_cdf ≡ false = ground arith in
    let r : rate_changed dto.tax_rate item.tax_rate ≡ false = ground arith in
    let l : is_given dto.lines ≡ false = ground arith in
    (
      changed-kept dto.amount_cdf item.amount_cdf a,
      changed-kept dto.paid_amount_cdf item.paid_amount_cdf p,
      rate_changed-kept dto.tax_rate item.tax_rate r,
      is_given-none dto.lines l,
    )
