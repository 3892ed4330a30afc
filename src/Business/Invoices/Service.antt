-- ===== src/Business/Invoices/Service.antt =====
-- The operations on invoices of src/business/business.service.ts. The uuid and the token of a row,
-- the time and the year are arguments. A save that breaks a unique index fails, and the transaction
-- with it.
use nola_hq_backend.Common.{
  ℕ, Bool, true, false, not, ◌&&◌, ◌||◌, Option, none, some, List, [], ◌∷◌, ◌==◌, nat_eq, string_eq,
  option_eq, if◌then◌else◌, ltb, String, Result, ok, ◌>>=◌, ◌>>◌, throw_if, or_throw, not_found,
  bad_request, conflict,
}
use mathlib.Core.Option.{get_or}
use nola_hq_backend.Common.Text.{trim_or_null}
use nola_hq_backend.WorkItems.Planning.Sprints.{assigned, coalesce}
use nola_hq_backend.WorkItems.Service.Filing.{truthy}
use nola_hq_backend.Business.Numbers.{NumberSequence}
use nola_hq_backend.Business.Invoices.{
  BusinessInvoice, BusinessInvoiceLine, BusinessInvoiceLineDto, BusinessInvoiceStatus, draft, paid,
  cancelled, cdf, CreateBusinessInvoiceDto, UpdateBusinessInvoiceDto, MarkInvoicePaidDto, Books,
  Services, subtotal_of, invoice_lines, payment_status, checked_tax, find_row,
  assert_invoice_contract,
}
use nola_hq_backend.Business.Invoices.Rows.{
  is_given, row_of, numbered, save_row, insert_row, reserve, number_for,
}

abbrev pub is_paid : BusinessInvoiceStatus → Bool
is_paid paid = true
is_paid _ = false

abbrev pub is_cancelled : BusinessInvoiceStatus → Bool
is_cancelled cancelled = true
is_cancelled _ = false

-- `dto.lines ? this.invoiceLineTotals(dto.lines) : null`
abbrev pub computed_lines :
    Services → Option (List BusinessInvoiceLineDto) → Option (List BusinessInvoiceLine)
computed_lines services none = none
computed_lines services (some lines) = some (invoice_lines services lines)

abbrev pub subtotal? : Option (List BusinessInvoiceLine) → Option ℕ
subtotal? none = none
subtotal? (some lines) = some (subtotal_of lines)

-- `status === 'paid' ? … : null`
abbrev pub paid_time : BusinessInvoiceStatus → Option ℕ → ℕ → Option ℕ
paid_time status old now = if is_paid status then some (get_or old now) else none

abbrev pub new_invoice :
    CreateBusinessInvoiceDto
    → (lines : Option (List BusinessInvoiceLine)) → (tax : ℕ)
    → (number business_unit_id new_id : String) → (now : ℕ) → BusinessInvoice
new_invoice dto lines tax number business_unit_id new_id now =
    let paid_amount = get_or dto.paid_amount_cdf 0 in
    let status = payment_status (get_or dto.status draft) dto.amount_cdf paid_amount in
    record {
      id = new_id;
      number = number;
      client_id = dto.client_id;
      project_id = dto.project_id;
      contract_id = dto.contract_id;
      business_unit_id = business_unit_id;
      amount_cdf = dto.amount_cdf;
      paid_amount_cdf = paid_amount;
      tax_rate = get_or dto.tax_rate 0;
      tax_cdf = tax;
      tax_label = trim_or_null dto.tax_label;
      currency = get_or dto.currency cdf;
      issued_on = dto.issued_on;
      due_on = dto.due_on;
      paid_at = paid_time status none now;
      status = status;
      description = trim_or_null dto.description;
      receipt_number = none;
      payment_method = none;
      payment_reference = none;
      verification_token = none;
      receipt_voided_at = none;
      lines = get_or lines [];
      created_at = now;
      updated_at = now;
    }

abbrev pub number_taken : List BusinessInvoice → Option String → Bool
number_taken rows none = false
number_taken rows (some number) = numbered rows number

-- `createInvoice`
unfoldable pub create_invoice :
    Services → Books → CreateBusinessInvoiceDto → (new_id : String) → (now year : ℕ) → Result Books
create_invoice services books dto new_id now year =
    find_row books.clients dto.client_id
    >> find_row books.projects dto.project_id
    >> assert_invoice_contract books.contracts (truthy dto.contract_id) dto.client_id dto.project_id
    >> throw_if (ltb dto.due_on dto.issued_on) bad_request
    >> throw_if (ltb dto.amount_cdf (get_or dto.paid_amount_cdf 0)) bad_request
    >> (checked_tax services (subtotal? (computed_lines services dto.lines)) (get_or dto.tax_rate 0)
          dto.amount_cdf
        >>= λ tax.
            throw_if (number_taken books.invoices (trim_or_null dto.number)) conflict
            >> (services.resolve (get_or dto.business_unit_code "khi-lab") >>= λ unit.
                number_for services books.sequences (trim_or_null dto.number) year
                >>= λ ((written, number) : List NumberSequence × String).
                    insert_row books
                      (new_invoice dto (computed_lines services dto.lines) tax number unit new_id
                        now)
                      written))

-- `changesFinancials`
abbrev pub changed : Option (Option ℕ) → ℕ → Bool
changed none old = false
changed (some asked) old = not (asked == some old)

abbrev pub rate_changed : Option ℕ → ℕ → Bool
rate_changed none old = false
rate_changed (some asked) old = not (asked == old)

unfoldable pub changes_financials : BusinessInvoice → UpdateBusinessInvoiceDto → Bool
changes_financials item dto =
    changed dto.amount_cdf item.amount_cdf
    || changed dto.paid_amount_cdf item.paid_amount_cdf
    || rate_changed dto.tax_rate item.tax_rate
    || is_given dto.lines

-- `dto.x ?? item.x` of a nullable field, and the column that `Object.assign` and `moneyTransformer`
-- then write: 0 for `null`
abbrev pub or_old {ℓ} : {A : Type ℓ} → Option (Option A) → A → A
or_old (some (some v)) old = v
or_old _ old = old

abbrev pub written_money : Option (Option ℕ) → ℕ → ℕ
written_money none old = old
written_money (some asked) old = get_or asked 0

-- the lines' subtotal that the new amount is checked against
abbrev pub existing_subtotal : List BusinessInvoiceLine → Option ℕ
existing_subtotal [] = none
existing_subtotal (line ∷ lines) = some (subtotal_of (line ∷ lines))

abbrev pub subtotal_for : Option (List BusinessInvoiceLine) → List BusinessInvoiceLine → Option ℕ
subtotal_for none old = existing_subtotal old
subtotal_for (some lines) old = some (subtotal_of lines)

-- `Object.assign(item, patch)` and the assignments after it
abbrev pub updated_invoice :
    BusinessInvoice
    → UpdateBusinessInvoiceDto
    → (lines : Option (List BusinessInvoiceLine)) → (tax now : ℕ) → BusinessInvoice
updated_invoice item dto lines tax now =
    let status =
      payment_status (get_or dto.status item.status) (or_old dto.amount_cdf item.amount_cdf)
        (or_old dto.paid_amount_cdf item.paid_amount_cdf) in
    record item {
      number = assigned dto.number item.number;
      client_id = assigned dto.client_id item.client_id;
      project_id = assigned dto.project_id item.project_id;
      contract_id = assigned dto.contract_id item.contract_id;
      amount_cdf = written_money dto.amount_cdf item.amount_cdf;
      paid_amount_cdf = written_money dto.paid_amount_cdf item.paid_amount_cdf;
      tax_rate = assigned dto.tax_rate item.tax_rate;
      tax_cdf = tax;
      tax_label = assigned dto.tax_label item.tax_label;
      currency = assigned dto.currency item.currency;
      issued_on = assigned dto.issued_on item.issued_on;
      due_on = assigned dto.due_on item.due_on;
      paid_at = paid_time status item.paid_at now;
      status = status;
      description = assigned dto.description item.description;
      lines = get_or lines item.lines;
      updated_at = now;
    }

-- the check on `dto.clientId` and `dto.projectId`, and on a number that changes
abbrev pub find_row? : List String → Option String → Result (Unit {0})
find_row? rows asked = elim (truthy asked) [ none ↦ ok tt | some id ↦ find_row rows id ]

abbrev pub taken : List BusinessInvoice → BusinessInvoice → Option String → Bool
taken rows item asked = elim (truthy asked) [
  | none ↦ false
  | some number ↦ not (number == item.number) && numbered rows number
]

-- `updateInvoice`
unfoldable pub update_invoice :
    Services → Books → (id : String) → UpdateBusinessInvoiceDto → (now : ℕ) → Result Books
unfolding changes_financials
update_invoice services books id dto now =
    or_throw (row_of books.invoices id) not_found >>= λ (item : BusinessInvoice).
    throw_if (is_given (truthy item.receipt_number) && changes_financials item dto) bad_request
    >> find_row? books.clients dto.client_id
    >> find_row? books.projects dto.project_id
    >> assert_invoice_contract books.contracts (truthy (coalesce dto.contract_id item.contract_id))
        (assigned dto.client_id item.client_id) (assigned dto.project_id item.project_id)
    >> throw_if (taken books.invoices item dto.number) conflict
    >> throw_if
        (ltb (or_old dto.amount_cdf item.amount_cdf)
          (or_old dto.paid_amount_cdf item.paid_amount_cdf))
        bad_request
    >> throw_if (ltb (assigned dto.due_on item.due_on) (assigned dto.issued_on item.issued_on))
        bad_request
    >> (checked_tax services (subtotal_for (computed_lines services dto.lines) item.lines)
          (assigned dto.tax_rate item.tax_rate) (or_old dto.amount_cdf item.amount_cdf)
        >>= λ tax.
            save_row books (updated_invoice item dto (computed_lines services dto.lines) tax now)
              books.sequences)

abbrev pub receipted_invoice :
    BusinessInvoice → MarkInvoicePaidDto → (number token : String) → (now : ℕ) → BusinessInvoice
receipted_invoice item dto number token now = record item {
  paid_amount_cdf = item.amount_cdf;
  status = paid;
  paid_at = some (get_or dto.paid_at now);
  payment_method = some dto.payment_method;
  payment_reference = trim_or_null dto.payment_reference;
  receipt_number = some number;
  verification_token = some token;
  updated_at = now;
}

-- `markPaid`
unfoldable pub mark_paid :
    Services
    → Books
    → (id : String) → MarkInvoicePaidDto
    → (token : String) → (now year : ℕ) → Result Books
mark_paid services books id dto token now year =
    or_throw (row_of books.invoices id) not_found >>= λ (item : BusinessInvoice).
    throw_if (is_cancelled item.status) bad_request
    >> throw_if (is_given (truthy item.receipt_number)) bad_request
    >> (reserve services books.sequences "REC" year
        >>= λ ((written, number) : List NumberSequence × String).
            save_row books (receipted_invoice item dto number token now) written)

-- `voidReceipt`
unfoldable pub void_receipt : Books → (id : String) → (now : ℕ) → Result Books
void_receipt books id now =
    or_throw (row_of books.invoices id) not_found >>= λ (item : BusinessInvoice).
    throw_if (not (is_given (truthy item.receipt_number))) bad_request
    >> throw_if (is_given item.receipt_voided_at) bad_request
    >> save_row books (record item { receipt_voided_at = some now; updated_at = now })
        books.sequences
