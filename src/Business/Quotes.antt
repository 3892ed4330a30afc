-- ===== src/Business/Quotes.antt =====
-- src/business/business-quote.entity.ts and the operations on quotes of
-- src/business/business-operations.service.ts. A quote holds its lines; tax rates are in hundredths,
-- as an invoice's.
pub mod Service
pub mod Conversion
pub mod Totals
pub mod Converted
pub mod History
use nola_hq_backend.Common.{
  ℕ, ◌+◌, Bool, true, false, Option, none, some, List, [], ◌∷◌, map, ◌==◌, string_eq, find,
  if◌then◌else◌, not, String, Result, ok, err, ◌>>=◌, ◌>>◌, throw_if, or_throw, not_found,
  bad_request,
}
use nola_hq_backend.WorkItems.Service.Filing.{truthy}
use nola_hq_backend.Business.Invoices.{
  BusinessInvoiceLine, BusinessInvoiceLineDto, BusinessInvoiceStatus, BusinessCurrency, Books,
  Services, find_row, other_project, invoice_lines, subtotal_of,
}

pub data BusinessQuoteStatus : Type 0 where
  draft sent accepted rejected expired : BusinessQuoteStatus

pub data BusinessOpportunityStage : Type 0 where
  lead qualified proposal negotiation won lost : BusinessOpportunityStage

pub record BusinessOpportunity : Type 0 where
  pub id : String
  pub client_id : String
  pub project_id : Option String
  pub stage : BusinessOpportunityStage
  pub probability : ℕ
  pub updated_at : ℕ

-- A line of a quote has the columns of an invoice's.
pub record BusinessQuote : Type 0 where
  pub id : String
  pub number : String
  pub client_id : String
  pub project_id : Option String
  pub opportunity_id : Option String
  pub business_unit_id : String
  pub title : String
  pub status : BusinessQuoteStatus
  pub issued_on : ℕ
  pub valid_until : ℕ
  pub tax_rate : ℕ
  pub subtotal_cdf : ℕ
  pub tax_cdf : ℕ
  pub total_cdf : ℕ
  pub currency : BusinessCurrency
  pub payment_terms : Option String
  pub notes : Option String
  pub lines : List BusinessInvoiceLine
  pub created_at : ℕ
  pub updated_at : ℕ

pub record CreateBusinessQuoteDto : Type 0 where
  pub number : Option String
  pub client_id : String
  pub project_id : Option String
  pub opportunity_id : Option String
  pub title : String
  pub status : Option BusinessQuoteStatus
  pub issued_on : ℕ
  pub valid_until : ℕ
  pub tax_rate : Option ℕ
  pub currency : Option BusinessCurrency
  pub payment_terms : Option String
  pub notes : Option String
  pub lines : List BusinessInvoiceLineDto
  pub business_unit_code : Option String

-- `none` is a field left out.
pub record UpdateBusinessQuoteDto : Type 0 where
  pub number : Option String
  pub client_id : Option String
  pub project_id : Option String
  pub opportunity_id : Option String
  pub title : Option String
  pub status : Option BusinessQuoteStatus
  pub issued_on : Option ℕ
  pub valid_until : Option ℕ
  pub tax_rate : Option ℕ
  pub currency : Option BusinessCurrency
  pub payment_terms : Option (Option String)
  pub notes : Option (Option String)
  pub lines : Option (List BusinessInvoiceLineDto)

pub record ConvertQuoteToInvoiceDto : Type 0 where
  pub due_on : ℕ
  pub status : Option BusinessInvoiceStatus

-- the rows of `business_units`: id and code
abbrev pub BusinessUnits : Type 0
BusinessUnits = List (String × String)

pub record Deals : Type 0 where
  pub books : Books
  pub opportunities : List BusinessOpportunity
  pub quotes : List BusinessQuote
  pub units : BusinessUnits

-- `totals`
pub record QuoteTotals : Type 0 where
  pub normalized : List BusinessInvoiceLine
  pub subtotal_cdf : ℕ
  pub tax_cdf : ℕ
  pub total_cdf : ℕ

abbrev pub totals : Services → List BusinessInvoiceLineDto → (tax_rate : ℕ) → QuoteTotals
totals services lines tax_rate =
    let normalized = invoice_lines services lines in
    let subtotal = subtotal_of normalized in
    let tax = services.tax_on subtotal tax_rate in
    record {
      normalized = normalized;
      subtotal_cdf = subtotal;
      tax_cdf = tax;
      total_cdf = subtotal + tax;
    }

-- the lines as a request has them
abbrev pub as_dto : BusinessInvoiceLine → BusinessInvoiceLineDto
as_dto line = record {
  description = line.description;
  quantity = line.quantity;
  unit_price_cdf = line.unit_price_cdf;
}

-- `projectId && opportunity.projectId && projectId !== opportunity.projectId`
abbrev pub apart : Option String → Option String → Bool
apart project_id opportunity_project = elim (truthy project_id) [
  | none ↦ false
  | some p ↦ other_project opportunity_project p
]

abbrev pub assert_opportunity :
    List BusinessOpportunity → Option String → String → Option String → Result (Unit {0})
assert_opportunity opportunities none client_id project_id = ok tt
assert_opportunity opportunities (some id) client_id project_id =
    or_throw (find (λ (o : BusinessOpportunity). o.id == id) opportunities) not_found
    >>= λ (opportunity : BusinessOpportunity).
        throw_if (not (opportunity.client_id == client_id)) bad_request
        >> throw_if (apart project_id opportunity.project_id) bad_request

abbrev pub project_row : List String → Option String → Result (Unit {0})
project_row projects none = ok tt
project_row projects (some id) = find_row projects id

-- `assertQuoteLinks`
unfoldable pub assert_quote_links :
    Deals → (client_id : String) → (project_id opportunity_id : Option String) → Result (Unit {0})
assert_quote_links deals client_id project_id opportunity_id =
    find_row deals.books.clients client_id
    >> project_row deals.books.projects (truthy project_id)
    >> assert_opportunity deals.opportunities (truthy opportunity_id) client_id project_id
