-- ===== src/Business/Quotes/Totals.antt =====
-- The totals of a quote are those of its lines, through every operation.
use nola_hq_backend.Common.{
  ℕ, suc, ◌+◌, ◌≡◌, refl, sym, ap, ◌∙◌, Option, none, some, List, [], ◌∷◌, map, string_eq, any,
  String, ok, throw_if, or_throw, not_found, internal_error, inl, inr, All, Bool-cases, >>-eq-ok,
  >>=-eq-ok,
}
use mathlib.Core.Path.{ap₂}
use nola_hq_backend.Common.Rows.{ok-same, or_throw-ok, All-replaced, All-found, All-added}
use mathlib.Core.Option.{get_or}
use nola_hq_backend.Common.Text.{trim_or_null}
use nola_hq_backend.Business.Numbers.{NumberSequence}
use nola_hq_backend.Business.Invoices.{
  Services, BusinessInvoiceLine, BusinessInvoiceLineDto, normalized_from, invoice_lines,
  subtotal_of,
}
use nola_hq_backend.Business.Quotes.{
  BusinessQuote, BusinessQuoteStatus, CreateBusinessQuoteDto, UpdateBusinessQuoteDto, Deals, as_dto,
}
use nola_hq_backend.Business.Quotes.Service.{
  quote_of, save_quote, insert_quote, same_number, quote_number, new_quote, create_quote,
  updated_quote, win, update_quote, is_accepted,
}

-- A line's total is its quantity times its price, as JavaScript rounds it.
abbrev pub Priced : Services → BusinessInvoiceLine → Type 0
Priced services line = line.total_cdf ≡ services.line_total line.quantity line.unit_price_cdf

abbrev pub Consistent : Services → BusinessQuote → Type 0
Consistent services q =
    All (Priced services) q.lines
    × (q.subtotal_cdf ≡ subtotal_of q.lines)
    × (q.tax_cdf ≡ services.tax_on q.subtotal_cdf q.tax_rate)
    × (q.total_cdf ≡ q.subtotal_cdf + q.tax_cdf)

module _ (services : Services) where
  normalized_from-Priced :
      (position : ℕ) (lines : List BusinessInvoiceLineDto)
      → All (Priced services) (normalized_from services.line_total position lines)
  normalized_from-Priced position [] = tt
  normalized_from-Priced position (line ∷ lines) =
      (refl, normalized_from-Priced (suc position) lines)

  -- Lines that are read back and computed again come to the same subtotal.
  normalized_from-subtotal :
      (position : ℕ) (lines : List BusinessInvoiceLine)
      → All (Priced services) lines
      → subtotal_of (normalized_from services.line_total position (map as_dto lines))
        ≡ subtotal_of lines
  normalized_from-subtotal position [] priced = refl
  normalized_from-subtotal position (line ∷ lines) (first, others) =
      ap₂ ◌+◌ (sym first) (normalized_from-subtotal (suc position) lines others)

  pub invoice_lines-subtotal :
      (lines : List BusinessInvoiceLine)
      → All (Priced services) lines
      → subtotal_of (invoice_lines services (map as_dto lines)) ≡ subtotal_of lines
  invoice_lines-subtotal lines priced = normalized_from-subtotal 0 lines priced

  new-Consistent :
      (dto : CreateBusinessQuoteDto) (number unit new_id : String) (now : ℕ)
      → Consistent services (new_quote services dto number unit new_id now)
  new-Consistent dto number unit new_id now = (normalized_from-Priced 0 dto.lines, refl, refl, refl)

  updated-Consistent :
      (quote : BusinessQuote) (dto : UpdateBusinessQuoteDto) (now : ℕ)
      → Consistent services quote
      → Consistent services (updated_quote services quote dto now)
  updated-Consistent quote dto now (priced, subtotal, tax, total) = go dto.lines
    where
      go :
          (lines : Option (List BusinessInvoiceLineDto))
          → Consistent services (updated_quote services quote (record dto { lines = lines }) now)
      go none = (priced, invoice_lines-subtotal quote.lines priced, refl, refl)
      go (some lines) = (normalized_from-Priced 0 lines, refl, refl, refl)

  abbrev pub AllConsistent : Deals → Type 0
  AllConsistent d = All (Consistent services) d.quotes

  save_quote-AllConsistent :
      (d d' : Deals) (row : BusinessQuote)
      → save_quote d row ≡ ok d'
      → Consistent services row
      → AllConsistent d
      → AllConsistent d'
  save_quote-AllConsistent d d' row h new old =
      let (free, stored) =
        >>-eq-ok (throw_if (any (same_number row) d.quotes) internal_error) _ h in
      let quotes = ap (λ (r : Deals). r.quotes) (sym (ok-same stored)) in
      rw quotes (All-replaced (Consistent services) _ row d.quotes new old)

  insert_quote-AllConsistent :
      (d d' : Deals) (row : BusinessQuote) (written : List NumberSequence)
      → insert_quote d row written ≡ ok d'
      → Consistent services row
      → AllConsistent d
      → AllConsistent d'
  insert_quote-AllConsistent d d' row written h new old =
      let (checks, stored) = >>-eq-ok _ _ h in
      let quotes = ap (λ (r : Deals). r.quotes) (sym (ok-same stored)) in
      rw quotes (All-added (Consistent services) d.quotes row old new)

  -- A new quote is consistent, and the others are not touched.
  pub create_quote-AllConsistent :
      (d d' : Deals) (dto : CreateBusinessQuoteDto) (new_id : String) (now year : ℕ)
      → create_quote services d dto new_id now year ≡ ok d'
      → AllConsistent d
      → AllConsistent d'
  unfolding create_quote
  create_quote-AllConsistent d d' dto new_id now year h old =
      let (checks, h1) = >>-eq-ok _ _ h in
      let (unit, resolved, h2) =
        >>=-eq-ok (services.resolve (get_or dto.business_unit_code "khi-lab")) _ h1 in
      let ((written, number), reserved, stored) =
        >>=-eq-ok (quote_number services d.books.sequences (trim_or_null dto.number) year) _ h2 in
      insert_quote-AllConsistent d d' (new_quote services dto number unit new_id now) written stored
        (new-Consistent dto number unit new_id now) old

  win-quotes :
      (dto : UpdateBusinessQuoteDto) (quote : BusinessQuote) (now : ℕ) (d : Deals)
      → (win dto quote now d).quotes ≡ d.quotes
  win-quotes dto quote now d = go dto.status
    where
      go :
          (status : Option BusinessQuoteStatus)
          → (win (record dto { status = status }) quote now d).quotes ≡ d.quotes
      go none = refl
      go (some status) = elim (Bool-cases (is_accepted status)) [
        | inl yes_accepted ↦ rw yes_accepted refl
        | inr other ↦ rw other refl
      ]

  -- An updated quote is consistent again, with new lines or with those that it has.
  pub update_quote-AllConsistent :
      (d d' : Deals) (id : String) (dto : UpdateBusinessQuoteDto) (now : ℕ)
      → update_quote services d id dto now ≡ ok d'
      → AllConsistent d
      → AllConsistent d'
  unfolding update_quote
  update_quote-AllConsistent d d' id dto now h old =
      let (quote, found, h1) = >>=-eq-ok (or_throw (quote_of d.quotes id) not_found) _ h in
      let (checks, h2) = >>-eq-ok _ _ h1 in
      let row = updated_quote services quote dto now in
      let (saved, stored, last) = >>=-eq-ok (save_quote d row) _ h2 in
      let quotes =
        ap (λ (r : Deals). r.quotes) (sym (ok-same last)) ∙ win-quotes dto row now saved in
      rw quotes (
        save_quote-AllConsistent d saved row stored
          (updated-Consistent quote dto now (
            All-found (Consistent services) _ d.quotes quote
              (or_throw-ok (quote_of d.quotes id) not_found found) old))
          old)
