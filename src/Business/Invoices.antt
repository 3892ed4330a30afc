-- ===== src/Business/Invoices.antt =====
-- src/business/business-invoice.entity.ts, src/business/dto/business.dto.ts and the checks that
-- src/business/business.service.ts makes on an invoice. Quantities and tax rates are in hundredths.
-- JavaScript's rounding and numerals, the random token and the resolver of business units are the
-- fields of `Services`.
pub mod Rows
pub mod Service
pub mod Balance
pub mod Written
pub mod Kept
pub mod Receipts
use nola_hq_backend.Common.{
  ℕ, suc, ◌+◌, Bool, true, false, not, ◌&&◌, ◌||◌, Option, none, some, List, [], ◌∷◌, ◌==◌, nat_eq,
  string_eq, option_eq, find, if◌then◌else◌, ltb, leb, String, Result, ok, err, ◌>>=◌, ◌>>◌,
  throw_if, or_throw, not_found, bad_request,
}
use nola_hq_backend.Common.Text.{trim}
use nola_hq_backend.WorkItems.Service.Filing.{truthy}
use nola_hq_backend.Business.Numbers.{NumberSequence}

pub data BusinessInvoiceStatus : Type 0 where
  draft sent partial paid overdue cancelled : BusinessInvoiceStatus

pub data BusinessPaymentMethod : Type 0 where
  cash bank_transfer mobile_money card other : BusinessPaymentMethod

pub data BusinessCurrency : Type 0 where
  usd cdf cad : BusinessCurrency

pub record BusinessInvoiceLine : Type 0 where
  pub description : String
  pub quantity : ℕ
  pub unit_price_cdf : ℕ
  pub total_cdf : ℕ
  pub position : ℕ

pub record BusinessInvoice : Type 0 where
  pub id : String
  pub number : String
  pub client_id : String
  pub project_id : String
  pub contract_id : Option String
  pub business_unit_id : String
  pub amount_cdf : ℕ
  pub paid_amount_cdf : ℕ
  pub tax_rate : ℕ
  pub tax_cdf : ℕ
  pub tax_label : Option String
  pub currency : BusinessCurrency
  pub issued_on : ℕ
  pub due_on : ℕ
  pub paid_at : Option ℕ
  pub status : BusinessInvoiceStatus
  pub description : Option String
  pub receipt_number : Option String
  pub payment_method : Option BusinessPaymentMethod
  pub payment_reference : Option String
  pub verification_token : Option String
  pub receipt_voided_at : Option ℕ
  pub lines : List BusinessInvoiceLine
  pub created_at : ℕ
  pub updated_at : ℕ

pub record BusinessInvoiceLineDto : Type 0 where
  pub description : String
  pub quantity : ℕ
  pub unit_price_cdf : ℕ

pub record CreateBusinessInvoiceDto : Type 0 where
  pub number : Option String
  pub client_id : String
  pub project_id : String
  pub contract_id : Option String
  pub amount_cdf : ℕ
  pub paid_amount_cdf : Option ℕ
  pub currency : Option BusinessCurrency
  pub issued_on : ℕ
  pub due_on : ℕ
  pub status : Option BusinessInvoiceStatus
  pub description : Option String
  pub lines : Option (List BusinessInvoiceLineDto)
  pub tax_rate : Option ℕ
  pub tax_label : Option String
  pub business_unit_code : Option String

-- `none` is a field left out; the inner `none` is `null`, where it is stored.
pub record UpdateBusinessInvoiceDto : Type 0 where
  pub number : Option String
  pub client_id : Option String
  pub project_id : Option String
  pub contract_id : Option (Option String)
  pub amount_cdf : Option (Option ℕ)
  pub paid_amount_cdf : Option (Option ℕ)
  pub currency : Option BusinessCurrency
  pub issued_on : Option ℕ
  pub due_on : Option ℕ
  pub status : Option BusinessInvoiceStatus
  pub description : Option (Option String)
  pub lines : Option (List BusinessInvoiceLineDto)
  pub tax_rate : Option ℕ
  pub tax_label : Option (Option String)

pub record MarkInvoicePaidDto : Type 0 where
  pub payment_method : BusinessPaymentMethod
  pub payment_reference : Option String
  pub paid_at : Option ℕ

-- the columns of a contract that an invoice is checked against
pub record BusinessContract : Type 0 where
  pub id : String
  pub client_id : String
  pub project_id : Option String

-- The tables; an invoice holds its lines.
pub record Books : Type 0 where
  pub clients : List String
  pub projects : List String
  pub contracts : List BusinessContract
  pub invoices : List BusinessInvoice
  pub sequences : List NumberSequence

pub record Services : Type 0 where
  pub is_postgres : Bool
  pub four_digits : ℕ → String
  pub five_digits : ℕ → String
  -- `Math.round(quantity * unitPriceCdf)` and `Math.round(subtotal * taxRate / 100)`
  pub line_total : (quantity unit_price : ℕ) → ℕ
  pub tax_on : (subtotal tax_rate : ℕ) → ℕ
  -- `businessUnits.resolve`
  pub resolve : String → Result String

-- `item.reduce((sum, line) => sum + line.totalCdf, 0)`
abbrev pub subtotal_of : List BusinessInvoiceLine → ℕ
subtotal_of [] = 0
subtotal_of (line ∷ lines) = line.total_cdf + subtotal_of lines

abbrev pub normalized_from :
    (line_total : ℕ → ℕ → ℕ) → ℕ → List BusinessInvoiceLineDto → List BusinessInvoiceLine
normalized_from line_total position [] = []
normalized_from line_total position (line ∷ lines) =
    record {
      description = trim line.description;
      quantity = line.quantity;
      unit_price_cdf = line.unit_price_cdf;
      total_cdf = line_total line.quantity line.unit_price_cdf;
      position = position;
    }
    ∷ normalized_from line_total (suc position) lines

-- `invoiceLineTotals(…).normalized`
abbrev pub invoice_lines : Services → List BusinessInvoiceLineDto → List BusinessInvoiceLine
invoice_lines services lines = normalized_from services.line_total 0 lines

-- `requested === 'paid' || requested === 'partial' ? 'sent' : requested`
abbrev pub unpaid_status : BusinessInvoiceStatus → BusinessInvoiceStatus
unpaid_status paid = sent
unpaid_status partial = sent
unpaid_status requested = requested

-- `paymentStatus`
unfoldable pub payment_status :
    (requested : BusinessInvoiceStatus) → (amount paid_amount : ℕ) → BusinessInvoiceStatus
payment_status requested amount paid_amount =
    if leb amount paid_amount && ltb 0 amount
    then paid
    else if ltb 0 paid_amount
    then partial
    else unpaid_status requested

-- `effectiveInvoiceStatus`
unfoldable pub effective_status : BusinessInvoice → (today : ℕ) → BusinessInvoiceStatus
effective_status invoice today = elim invoice.status [
  | paid ↦ paid
  | cancelled ↦ cancelled
  | draft ↦ draft
  | status ↦ if ltb invoice.due_on today then overdue else status
]

-- The tax of an invoice, and the refusal where its amount is not what its lines and tax come to.
unfoldable pub checked_tax : Services → (subtotal : Option ℕ) → (tax_rate amount : ℕ) → Result ℕ
checked_tax services none tax_rate amount = throw_if (ltb 0 tax_rate) bad_request >> ok 0
checked_tax services (some subtotal) tax_rate amount =
    let tax = services.tax_on subtotal tax_rate in
    throw_if (not (subtotal + tax == amount)) bad_request >> ok tax

-- `client`, `project`
abbrev pub find_row : List String → String → Result (Unit {0})
find_row rows id = or_throw (find (λ row. row == id) rows) not_found >>= λ row. ok tt

-- `contract.projectId && contract.projectId !== projectId`
abbrev pub other_project : Option String → String → Bool
other_project contract_project project_id = elim (truthy contract_project) [
  | none ↦ false
  | some p ↦ not (p == project_id)
]

-- `assertInvoiceContract`, where a contract is named
unfoldable pub assert_invoice_contract :
    List BusinessContract → Option String → (client_id project_id : String) → Result (Unit {0})
assert_invoice_contract contracts none client_id project_id = ok tt
assert_invoice_contract contracts (some id) client_id project_id =
    or_throw (find (λ (c : BusinessContract). c.id == id) contracts) not_found
    >>= λ (contract : BusinessContract).
        throw_if (not (contract.client_id == client_id)) bad_request
        >> throw_if (other_project contract.project_id project_id) bad_request
