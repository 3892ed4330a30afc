-- ===== src/Business/Quotes/Converted.antt =====
-- What a quote becomes when it is converted.
use nola_hq_backend.Common.{
  ℕ, suc, any, internal_error, ◌+◌, ◌≡◌, refl, sym, ap, ◌∙◌, true, Option, none, some, List, [],
  ◌∷◌, ◌++◌, map, ◌==◌, nat_eq, String, ok, ◌>>=◌, throw_if, or_throw, not_found, bad_request, inl,
  inr, All, Bool-cases, >>-eq-ok, >>=-eq-ok, eq→beq, ◌≢◌,
}
use mathlib.Core.Path.{ap₂}
use mathlib.Core.Option.{get_or}
use nola_hq_backend.Common.Rows.{ok-same, or_throw-ok, All-found}
use nola_hq_backend.Common.Text.{trim_or_null}
use nola_hq_backend.WorkItems.Service.Filing.{truthy}
use nola_hq_backend.Business.Invoices.{
  Books, Services, BusinessInvoice, BusinessInvoiceLine, normalized_from, subtotal_of, checked_tax,
}
use nola_hq_backend.Business.Invoices.Service.{
  create_invoice, computed_lines, subtotal?, new_invoice,
}
use nola_hq_backend.Business.Invoices.Written.{create_invoice-written}
use nola_hq_backend.Business.Quotes.{
  BusinessQuote, BusinessUnits, BusinessQuoteStatus, CreateBusinessQuoteDto, UpdateBusinessQuoteDto,
  ConvertQuoteToInvoiceDto, Deals, as_dto,
}
use nola_hq_backend.Business.Quotes.Service.{
  quote_of, quote_number, create_quote, is_accepted, update_quote, win, same_number, save_quote,
  updated_quote,
}
use nola_hq_backend.Business.Quotes.Conversion.{
  converted_dto, some_lines, accept, accept_quote, convert_quote,
}
use nola_hq_backend.Business.Quotes.Totals.{
  Priced, Consistent, AllConsistent, invoice_lines-subtotal,
}

abbrev pub figures : BusinessInvoiceLine → ℕ × ℕ × ℕ
figures line = (line.quantity, line.unit_price_cdf, line.total_cdf)

module _ (services : Services) where
  win-books :
      (dto : UpdateBusinessQuoteDto) (quote : BusinessQuote) (now : ℕ) (d : Deals)
      → (win dto quote now d).books ≡ d.books
  win-books dto quote now d = go dto.status
    where
      go :
          (status : Option BusinessQuoteStatus)
          → (win (record dto { status = status }) quote now d).books ≡ d.books
      go none = refl
      go (some status) = elim (Bool-cases (is_accepted status)) [
        | inl won_over ↦ rw won_over refl
        | inr other ↦ rw other refl
      ]

  figures_from :
      (position : ℕ) (lines : List BusinessInvoiceLine)
      → All (Priced services) lines
      → map figures (normalized_from services.line_total position (map as_dto lines))
        ≡ map figures lines
  figures_from position [] priced = refl
  figures_from position (line ∷ lines) (first, others) =
      ap₂ ◌∷◌ (ap (λ total. (line.quantity, line.unit_price_cdf, total)) (sym first))
        (figures_from (suc position) lines others)

  converted-figures :
      (lines : List BusinessInvoiceLine)
      → lines ≢ []
      → All (Priced services) lines
      → map figures (get_or (computed_lines services (some_lines (map as_dto lines))) [])
        ≡ map figures lines
  converted-figures [] h priced = absurd (h refl)
  converted-figures (line ∷ lines) h priced = figures_from 0 (line ∷ lines) priced

  subtotal_of_converted :
      (lines : List BusinessInvoiceLine)
      → lines ≢ []
      → All (Priced services) lines
      → subtotal? (computed_lines services (some_lines (map as_dto lines)))
        ≡ some (subtotal_of lines)
  subtotal_of_converted [] h priced = absurd (h refl)
  subtotal_of_converted (line ∷ lines) h priced =
      ap some (invoice_lines-subtotal services (line ∷ lines) priced)

  -- A quote whose totals are consistent, with lines, becomes a request that the check of the amount
  -- of an invoice accepts, with the quote's own tax.
  pub converted_dto-checked :
      (units : BusinessUnits) (quote : BusinessQuote) (project_id : String)
      (dto : ConvertQuoteToInvoiceDto) (today : ℕ)
      → Consistent services quote
      → quote.lines ≢ []
      → let asked = converted_dto units quote project_id dto today in
        checked_tax services
          (subtotal? (computed_lines services asked.lines))
          (get_or asked.tax_rate 0)
          asked.amount_cdf
        ≡ ok quote.tax_cdf
  unfolding checked_tax
  converted_dto-checked units quote project_id dto today (priced, subtotal, tax, total) full =
      let tax' : services.tax_on (subtotal_of quote.lines) quote.tax_rate ≡ quote.tax_cdf =
        rw (← subtotal) (sym tax) in
      let same : (subtotal_of quote.lines + services.tax_on (subtotal_of quote.lines) quote.tax_rate
            == quote.total_cdf)
          ≡ true =
        eq→beq {A = ℕ} _ _ (rw (tax', ← subtotal) (sym total)) in
      rw (subtotal_of_converted quote.lines full priced) (rw (checked_tax, same) (ap ok tax'))

  pub create_quote-invoices :
      (d d' : Deals) (dto : CreateBusinessQuoteDto) (new_id : String) (now year : ℕ)
      → create_quote services d dto new_id now year ≡ ok d'
      → d'.books.invoices ≡ d.books.invoices
  unfolding create_quote
  create_quote-invoices d d' dto new_id now year h =
      let (checks, h1) = >>-eq-ok _ _ h in
      let (unit, resolved, h2) =
        >>=-eq-ok (services.resolve (get_or dto.business_unit_code "khi-lab")) _ h1 in
      let ((written, number), reserved, stored) =
        >>=-eq-ok (quote_number services d.books.sequences (trim_or_null dto.number) year) _ h2 in
      let (unique, added) = >>-eq-ok _ _ stored in
      ap (λ (r : Deals). r.books.invoices) (sym (ok-same added))

  pub update_quote-books :
      (d d' : Deals) (id : String) (dto : UpdateBusinessQuoteDto) (now : ℕ)
      → update_quote services d id dto now ≡ ok d'
      → d'.books ≡ d.books
  unfolding update_quote
  update_quote-books d d' id dto now h =
      let (quote, found, h1) = >>=-eq-ok (or_throw (quote_of d.quotes id) not_found) _ h in
      let (checks, h2) = >>-eq-ok _ _ h1 in
      let row = updated_quote services quote dto now in
      let (saved, stored, last) = >>=-eq-ok (save_quote d row) _ h2 in
      let (free, saved_as) =
        >>-eq-ok (throw_if (any (same_number row) d.quotes) internal_error) _ stored in
      ap (λ (r : Deals). r.books) (sym (ok-same last))
      ∙ win-books dto row now saved
      ∙ ap (λ (r : Deals). r.books) (sym (ok-same saved_as))

  pub accept_quote-books :
      (d d' : Deals) (id : String) (quote : BusinessQuote) (now : ℕ)
      → accept_quote services d id quote now ≡ ok d'
      → d'.books ≡ d.books
  accept_quote-books d d' id quote now h = elim (Bool-cases (is_accepted quote.status)) [
    | inl done ↦ ap (λ (r : Deals). r.books) (sym (ok-same (rw done at h)))
    | inr pending ↦ update_quote-books d d' id accept now (rw pending at h)
  ]

  convert_row :
      (d d' : Deals) (id : String) (dto : ConvertQuoteToInvoiceDto) (new_id : String)
      (now year today : ℕ) (quote : BusinessQuote)
      → Consistent services quote
      → quote.lines ≢ []
      → (or_throw (truthy quote.project_id) bad_request >>= λ project_id.
          create_invoice services d.books
            (converted_dto d.units quote project_id dto today)
            new_id
            now
            year
          >>= λ books. accept_quote services (record d { books = books }) id quote now)
        ≡ ok d'
      → (invoice : BusinessInvoice) × (d'.books.invoices ≡ d.books.invoices ++ invoice ∷ [])
        × (invoice.id ≡ new_id)
        × (invoice.amount_cdf ≡ quote.total_cdf)
        × (invoice.tax_cdf ≡ quote.tax_cdf)
        × (invoice.tax_rate ≡ quote.tax_rate)
        × (invoice.client_id ≡ quote.client_id)
        × (truthy quote.project_id ≡ some invoice.project_id)
        × (invoice.currency ≡ quote.currency)
        × (invoice.paid_amount_cdf ≡ 0)
        × (map figures invoice.lines ≡ map figures quote.lines)
  convert_row d d' id dto new_id now year today quote sound full h =
      let (project_id, project, h2) =
        >>=-eq-ok (or_throw (truthy quote.project_id) bad_request) _ h in
      let asked = converted_dto d.units quote project_id dto today in
      let (books, stored, h3) =
        >>=-eq-ok (create_invoice services d.books asked new_id now year) _ h2 in
      let (tax, number, unit, taxed, bound, fresh, e) =
        create_invoice-written services d.books books asked new_id now year stored in
      let kept = accept_quote-books (record d { books = books }) d' id quote now h3 in
      (
        new_invoice asked (computed_lines services asked.lines) tax number unit new_id now,
        ap (λ (b : Books). b.invoices) kept ∙ e,
        refl,
        refl,
        ok-same (sym taxed ∙ converted_dto-checked d.units quote project_id dto today sound full),
        refl,
        refl,
        or_throw-ok (truthy quote.project_id) bad_request project,
        refl,
        refl,
        converted-figures quote.lines full sound.0,
      )

  -- Converting a quote whose totals are consistent, and which has lines, adds one invoice for its
  -- total and its tax, for its client and its project, with its currency, its tax rate, its lines'
  -- quantities, prices and totals, and nothing paid.
  pub convert_quote-invoice :
      (d d' : Deals) (id : String) (dto : ConvertQuoteToInvoiceDto) (new_id : String)
      (now year today : ℕ) (quote : BusinessQuote)
      → AllConsistent services d
      → quote_of d.quotes id ≡ some quote
      → quote.lines ≢ []
      → convert_quote services d id dto new_id now year today ≡ ok d'
      → (invoice : BusinessInvoice) × (d'.books.invoices ≡ d.books.invoices ++ invoice ∷ [])
        × (invoice.id ≡ new_id)
        × (invoice.amount_cdf ≡ quote.total_cdf)
        × (invoice.tax_cdf ≡ quote.tax_cdf)
        × (invoice.tax_rate ≡ quote.tax_rate)
        × (invoice.client_id ≡ quote.client_id)
        × (truthy quote.project_id ≡ some invoice.project_id)
        × (invoice.currency ≡ quote.currency)
        × (invoice.paid_amount_cdf ≡ 0)
        × (map figures invoice.lines ≡ map figures quote.lines)
  unfolding convert_quote
  convert_quote-invoice d d' id dto new_id now year today quote all there full h =
      let (row, found, h1) = >>=-eq-ok (or_throw (quote_of d.quotes id) not_found) _ h in
      let same : row ≡ quote = cc (or_throw-ok (quote_of d.quotes id) not_found found, there) in
      convert_row d d' id dto new_id now year today quote
        (All-found (Consistent services) _ d.quotes quote there all) full (rw same at h1)
