-- ===== src/Business/Quotes/Conversion.antt =====
-- `convertQuote` of src/business/business-operations.service.ts.
use nola_hq_backend.Common.{
  ℕ, Option, none, some, List, [], ◌∷◌, map, ◌==◌, string_eq, find, if◌then◌else◌, String, Result,
  ok, ◌>>=◌, or_throw, not_found, bad_request,
}
use Prim.Native.String.{◌++◌ as str_append}
use nola_hq_backend.WorkItems.Service.Filing.{truthy}
use nola_hq_backend.Business.Invoices.{Services, CreateBusinessInvoiceDto, BusinessInvoiceLineDto}
use nola_hq_backend.Business.Invoices.Service.{create_invoice}
use nola_hq_backend.Business.Quotes.{
  BusinessQuote, accepted, UpdateBusinessQuoteDto, ConvertQuoteToInvoiceDto, BusinessUnits, Deals,
  as_dto,
}
use nola_hq_backend.Business.Quotes.Service.{is_accepted, quote_of, update_quote}

abbrev pub unit_code : BusinessUnits → String → Option String
unit_code units id = elim (find (λ ((i, code) : String × String). i == id) units) [
  | none ↦ none
  | some found ↦ some found.1
]

-- `lines.length ? lines : undefined`
abbrev pub some_lines : List BusinessInvoiceLineDto → Option (List BusinessInvoiceLineDto)
some_lines [] = none
some_lines (line ∷ lines) = some (line ∷ lines)

abbrev pub converted_dto :
    BusinessUnits
    → BusinessQuote
    → (project_id : String) → ConvertQuoteToInvoiceDto
    → (today : ℕ) → CreateBusinessInvoiceDto
converted_dto units quote project_id dto today = record {
  number = none;
  client_id = quote.client_id;
  project_id = project_id;
  contract_id = none;
  amount_cdf = quote.total_cdf;
  paid_amount_cdf = none;
  currency = some quote.currency;
  issued_on = today;
  due_on = dto.due_on;
  status = dto.status;
  description = some (str_append quote.title (str_append " — devis " quote.number));
  lines = some_lines (map as_dto quote.lines);
  tax_rate = some quote.tax_rate;
  tax_label = none;
  business_unit_code = unit_code units quote.business_unit_id;
}

abbrev pub accept : UpdateBusinessQuoteDto
accept = record {
  number = none;
  client_id = none;
  project_id = none;
  opportunity_id = none;
  title = none;
  status = some accepted;
  issued_on = none;
  valid_until = none;
  tax_rate = none;
  currency = none;
  payment_terms = none;
  notes = none;
  lines = none;
}

-- `if (quote.status !== 'accepted') await this.updateQuote(id, { status: 'accepted' })`
abbrev pub accept_quote : Services → Deals → String → BusinessQuote → ℕ → Result Deals
accept_quote services deals id quote now =
    if is_accepted quote.status then ok deals else update_quote services deals id accept now

-- `convertQuote`
unfoldable pub convert_quote :
    Services
    → Deals
    → (id : String) → ConvertQuoteToInvoiceDto
    → (new_id : String) → (now year today : ℕ) → Result Deals
unfolding update_quote
convert_quote services deals id dto new_id now year today =
    or_throw (quote_of deals.quotes id) not_found >>= λ (quote : BusinessQuote).
    or_throw (truthy quote.project_id) bad_request >>= λ project_id.
    create_invoice services deals.books (converted_dto deals.units quote project_id dto today)
      new_id now year
    >>= λ books. accept_quote services (record deals { books = books }) id quote now
