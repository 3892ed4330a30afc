-- ===== src/Business/Invoices/Written.antt =====
-- The row that each operation on invoices writes, where it is accepted.
use nola_hq_backend.Common.{
  ℕ, ◌≤◌, ◌≡◌, sym, ap, false, ◌&&◌, some, List, [], ◌∷◌, ◌++◌, map, ◌==◌, string_eq, any, conflict,
  if◌then◌else◌, ltb, String, ok, throw_if, arith, >>-eq-ok, >>=-eq-ok, not_found, bad_request,
  internal_error,
}
use nola_hq_backend.Common.Rows.{ok-same, or_throw-ok}
use mathlib.Core.Option.{get_or}
use nola_hq_backend.Common.Text.{trim_or_null}
use nola_hq_backend.WorkItems.Planning.Sprints.{assigned}
use nola_hq_backend.WorkItems.Service.Filing.{truthy}
use nola_hq_backend.Business.Numbers.{NumberSequence}
use nola_hq_backend.Business.Invoices.{
  BusinessInvoice, CreateBusinessInvoiceDto, UpdateBusinessInvoiceDto, MarkInvoicePaidDto, Books,
  Services, checked_tax,
}
use nola_hq_backend.Business.Invoices.Rows.{
  is_given, row_of, clashes, save_row, insert_row, number_for, reserve,
}
use nola_hq_backend.Business.Invoices.Service.{
  number_taken, computed_lines, subtotal?, subtotal_for, new_invoice, updated_invoice,
  receipted_invoice, or_old, changes_financials, create_invoice, update_invoice, mark_paid,
  void_receipt,
}

-- The table with a row written in place of the one with its id.
abbrev pub replaced : BusinessInvoice → List BusinessInvoice → List BusinessInvoice
replaced row rows = map (λ (r : BusinessInvoice). if r.id == row.id then row else r) rows

pub save_row-invoices :
    (books books' : Books) (row : BusinessInvoice) (written : List NumberSequence)
    → save_row books row written ≡ ok books'
    → books'.invoices ≡ replaced row books.invoices
save_row-invoices books books' row written h =
    let (free, stored) =
      >>-eq-ok (throw_if (any (clashes row) books.invoices) internal_error) _ h in
    ap (λ (b : Books). b.invoices) (sym (ok-same stored))

pub insert_row-invoices :
    (books books' : Books) (row : BusinessInvoice) (written : List NumberSequence)
    → insert_row books row written ≡ ok books'
    → (is_given (row_of books.invoices row.id) ≡ false)
      × (books'.invoices ≡ books.invoices ++ row ∷ [])
insert_row-invoices books books' row written h =
    let (checks, stored) = >>-eq-ok _ _ h in
    let (new, free) =
      >>-eq-ok (throw_if (is_given (row_of books.invoices row.id)) internal_error) _ checks in
    (ground arith, ap (λ (b : Books). b.invoices) (sym (ok-same stored)))

pub create_invoice-written :
    (services : Services) (books books' : Books) (dto : CreateBusinessInvoiceDto) (new_id : String)
    (now year : ℕ)
    → create_invoice services books dto new_id now year ≡ ok books'
    → (tax : ℕ) × (number : String) × (unit : String) × (checked_tax services
          (subtotal? (computed_lines services dto.lines))
          (get_or dto.tax_rate 0)
          dto.amount_cdf
        ≡ ok tax)
      × (get_or dto.paid_amount_cdf 0 ≤ dto.amount_cdf)
      × (is_given (row_of books.invoices new_id) ≡ false)
      × (books'.invoices
          ≡ books.invoices
            ++ new_invoice dto (computed_lines services dto.lines) tax number unit new_id now ∷ [])
unfolding create_invoice
create_invoice-written services books books' dto new_id now year h =
    let (checks, h5) = >>-eq-ok _ _ h in
    let (earlier, bound) =
      >>-eq-ok _ (throw_if (ltb dto.amount_cdf (get_or dto.paid_amount_cdf 0)) bad_request)
        checks in
    let (tax, taxed, h6) = >>=-eq-ok _ _ h5 in
    let (free, h7) =
      >>-eq-ok (throw_if (number_taken books.invoices (trim_or_null dto.number)) conflict) _ h6 in
    let (unit, resolved, h8) =
      >>=-eq-ok (services.resolve (get_or dto.business_unit_code "khi-lab")) _ h7 in
    let ((written, number), reserved, h9) =
      >>=-eq-ok (number_for services books.sequences (trim_or_null dto.number) year) _ h8 in
    let (fresh, stored) = insert_row-invoices books books' _ written h9 in
    (tax, number, unit, taxed, ground arith, fresh, stored)

pub update_invoice-written :
    (services : Services) (books books' : Books) (id : String) (dto : UpdateBusinessInvoiceDto)
    (now : ℕ)
    → update_invoice services books id dto now ≡ ok books'
    → (item : BusinessInvoice) × (tax : ℕ) × (row_of books.invoices id ≡ some item)
      × ((is_given (truthy item.receipt_number) && changes_financials item dto) ≡ false)
      × (or_old dto.paid_amount_cdf item.paid_amount_cdf ≤ or_old dto.amount_cdf item.amount_cdf)
      × (checked_tax services
            (subtotal_for (computed_lines services dto.lines) item.lines)
            (assigned dto.tax_rate item.tax_rate)
            (or_old dto.amount_cdf item.amount_cdf)
          ≡ ok tax)
      × (books'.invoices
          ≡ replaced
              (updated_invoice item dto (computed_lines services dto.lines) tax now)
              books.invoices)
unfolding update_invoice
update_invoice-written services books books' id dto now h =
    let (item, found, h1) = >>=-eq-ok _ _ h in
    let (checks, h8) = >>-eq-ok _ _ h1 in
    let (checks7, dates) = >>-eq-ok _ _ checks in
    let (checks6, bound) =
      >>-eq-ok _
        (throw_if
          (ltb (or_old dto.amount_cdf item.amount_cdf)
            (or_old dto.paid_amount_cdf item.paid_amount_cdf))
          bad_request)
        checks7 in
    let (checks5, free) = >>-eq-ok _ _ checks6 in
    let (checks4, contract) = >>-eq-ok _ _ checks5 in
    let (checks3, project) = >>-eq-ok _ _ checks4 in
    let (frozen, client) =
      >>-eq-ok
        (throw_if (is_given (truthy item.receipt_number) && changes_financials item dto)
          bad_request)
        _ checks3 in
    let (tax, taxed, stored) = >>=-eq-ok _ _ h8 in
    (
      item,
      tax,
      or_throw-ok (row_of books.invoices id) not_found found,
      ground arith,
      ground arith,
      taxed,
      save_row-invoices books books' _ books.sequences stored,
    )

pub mark_paid-written :
    (services : Services) (books books' : Books) (id : String) (dto : MarkInvoicePaidDto)
    (token : String) (now year : ℕ)
    → mark_paid services books id dto token now year ≡ ok books'
    → (item : BusinessInvoice) × (number : String) × (row_of books.invoices id ≡ some item)
      × (is_given (truthy item.receipt_number) ≡ false)
      × (books'.invoices ≡ replaced (receipted_invoice item dto number token now) books.invoices)
unfolding mark_paid
mark_paid-written services books books' id dto token now year h =
    let (item, found, h1) = >>=-eq-ok _ _ h in
    let (checks, h3) = >>-eq-ok _ _ h1 in
    let (standing, first) =
      >>-eq-ok _ (throw_if (is_given (truthy item.receipt_number)) bad_request) checks in
    let ((written, number), reserved, stored) =
      >>=-eq-ok (reserve services books.sequences "REC" year) _ h3 in
    (
      item,
      number,
      or_throw-ok (row_of books.invoices id) not_found found,
      ground arith,
      save_row-invoices books books' _ written stored,
    )

pub void_receipt-written :
    (books books' : Books) (id : String) (now : ℕ)
    → void_receipt books id now ≡ ok books'
    → (item : BusinessInvoice) × (row_of books.invoices id ≡ some item)
      × (books'.invoices
          ≡ replaced
              (record item { receipt_voided_at = some now; updated_at = now })
              books.invoices)
unfolding void_receipt
void_receipt-written books books' id now h =
    let (item, found, h1) = >>=-eq-ok _ _ h in
    let (checks, stored) = >>-eq-ok _ _ h1 in
    (
      item,
      or_throw-ok (row_of books.invoices id) not_found found,
      save_row-invoices books books' _ books.sequences stored,
    )
