-- ===== src/Tests/Documents.antt =====
-- Invoices and quotes of one client and one project, numbered in 2026.
use nola_hq_backend.Common.{
  All, ◌⊎◌, In, ℕ, ◌+◌, ◌*◌, ◌/◌, ◌%◌, ◌≡◌, refl, true, false, none, some, List, [], ◌∷◌, ◌++◌,
  get_elem?, String, ok, err, bad_request, ◌==◌, string_eq, if◌then◌else◌, Unrepeated,
}
use Prim.Native.String.{◌++◌ as str_append}
use nola_hq_backend.Common.Text.{trim}
use mathlib.Core.Option.{get_or}
use nola_hq_backend.Business.Numbers.{NumberSequence, next_business_number}
use nola_hq_backend.Business.Numbers.Refined.{reserve_all, count_all, reserve_all-refines}
use nola_hq_backend.Business.Numbers.Issued.{last, issue, issue-Unrepeated}
use nola_hq_backend.Business.Invoices.{
  BusinessInvoice, BusinessInvoiceLine, sent, cash, Services, Books, CreateBusinessInvoiceDto,
  UpdateBusinessInvoiceDto, MarkInvoicePaidDto, assert_invoice_contract, checked_tax,
  payment_status,
}
use nola_hq_backend.Business.Invoices.Rows.{row_of}
use nola_hq_backend.Business.Invoices.Service.{
  create_invoice, update_invoice, mark_paid, void_receipt, new_invoice, receipted_invoice,
}
use nola_hq_backend.Business.Invoices.Kept.{
  done, and_then, created, marked_paid, voided, Steps-AllBalanced,
}
use nola_hq_backend.Business.Invoices.Balance.{Balanced}
use nola_hq_backend.Business.Quotes.Totals.{AllConsistent}
use nola_hq_backend.Business.Invoices.Receipts.{SameReceipt, Steps-SameReceipt}
use nola_hq_backend.Business.Quotes.{
  BusinessQuote, accepted, assert_quote_links, CreateBusinessQuoteDto, ConvertQuoteToInvoiceDto,
  Deals,
}
use nola_hq_backend.Business.Quotes.Service.{create_quote, new_quote, update_quote}
use nola_hq_backend.Business.Quotes.Conversion.{convert_quote, converted_dto}
use nola_hq_backend.Business.Quotes.Converted.{convert_quote-invoice}
use nola_hq_backend.Business.Quotes.History.{
  ended, next, quote_created, converted, DealSteps-AllInOrder,
}

abbrev digit : ℕ → String
digit n =
    get_or (get_elem? ("0" ∷ "1" ∷ "2" ∷ "3" ∷ "4" ∷ "5" ∷ "6" ∷ "7" ∷ "8" ∷ "9" ∷ []) (n % 10)) "0"

abbrev four : ℕ → String
four n =
    str_append (digit (n / 1000))
      (str_append (digit (n / 100)) (str_append (digit (n / 10)) (digit n)))

abbrev five : ℕ → String
five n = str_append (digit (n / 10000)) (four n)

-- One unit, and amounts rounded to the nearest.
abbrev services : Services
services = record {
  is_postgres = true;
  four_digits = four;
  five_digits = five;
  line_total = λ quantity price. (quantity * price + 50) / 100;
  tax_on = λ subtotal rate. (subtotal * rate + 5000) / 10000;
  resolve = λ code. if code == "khi-lab" then ok "u" else err bad_request;
}

abbrev counters : List NumberSequence
counters = record { prefix = "FAC"; year = 2026; last_value = 6 } ∷ []

numbered :
    next_business_number four five false counters "FAC" 2026
    ≡ some (record { prefix = "FAC"; year = 2026; last_value = 7 } ∷ [], "FAC-2026-00007")
unfolding next_business_number
numbered = refl

issue-Unrepeated_example :
    Unrepeated (issue counters (("FAC", 2026) ∷ ("REC", 2026) ∷ ("FAC", 2026) ∷ ("FAC", 2027) ∷ []))
issue-Unrepeated_example =
    issue-Unrepeated counters (("FAC", 2026) ∷ ("REC", 2026) ∷ ("FAC", 2026) ∷ ("FAC", 2027) ∷ [])

abbrev books : Books
books = record {
  clients = "c" ∷ [];
  projects = "p" ∷ [];
  contracts = [];
  invoices = [];
  sequences = counters;
}

-- Two and a half days at 400, with 16 % of tax.
abbrev dto : CreateBusinessInvoiceDto
dto = record {
  number = none;
  client_id = "c";
  project_id = "p";
  contract_id = none;
  amount_cdf = 1160;
  paid_amount_cdf = none;
  currency = none;
  issued_on = 20260301;
  due_on = 20260401;
  status = some sent;
  description = none;
  lines = some (record { description = "Audit"; quantity = 250; unit_price_cdf = 400 } ∷ []);
  tax_rate = some 1600;
  tax_label = none;
  business_unit_code = none;
}

abbrev lines : List BusinessInvoiceLine
lines =
    record {
      description = "Audit";
      quantity = 250;
      unit_price_cdf = 400;
      total_cdf = 1000;
      position = 0;
    }
    ∷ []

abbrev invoice : BusinessInvoice
invoice = new_invoice dto (some lines) 160 "FAC-2026-00007" "u" "i" 5

abbrev issued : Books
issued = record books {
  invoices = invoice ∷ [];
  sequences = record { prefix = "FAC"; year = 2026; last_value = 7 } ∷ [];
}

is_issued : create_invoice services books dto "i" 5 2026 ≡ ok issued
unfolding create_invoice assert_invoice_contract checked_tax next_business_number trim
is_issued = refl

abbrev payment : MarkInvoicePaidDto
payment = record { payment_method = cash; payment_reference = none; paid_at = none }

abbrev receipt : BusinessInvoice
receipt = receipted_invoice invoice payment "REC-2026-00001" "token" 9

abbrev settled : Books
settled = record books {
  invoices = receipt ∷ [];
  sequences =
      record { prefix = "FAC"; year = 2026; last_value = 7 }
      ∷ record { prefix = "REC"; year = 2026; last_value = 1 }
      ∷ [];
}

is_settled : mark_paid services issued "i" payment "token" 9 2026 ≡ ok settled
unfolding mark_paid next_business_number payment_status
is_settled = refl

-- An invoice with a receipt takes no new amount.
abbrev larger : UpdateBusinessInvoiceDto
larger = record {
  number = none;
  client_id = none;
  project_id = none;
  contract_id = none;
  amount_cdf = some (some 2000);
  paid_amount_cdf = none;
  currency = none;
  issued_on = none;
  due_on = none;
  status = none;
  description = none;
  lines = none;
  tax_rate = none;
  tax_label = none;
}

is_refused : update_invoice services settled "i" larger 12 ≡ err bad_request
unfolding update_invoice
is_refused = refl

abbrev void : Books
void = record settled {
  invoices = record receipt { receipt_voided_at = some 11; updated_at = 11 } ∷ [];
}

is_void : void_receipt settled "i" 11 ≡ ok void
unfolding void_receipt
is_void = refl

Steps-AllBalanced_example :
    All (λ (i : BusinessInvoice). Balanced services i ⊎ In i.id []) void.invoices
Steps-AllBalanced_example =
    Steps-AllBalanced services books void
      (and_then (created dto "i" 5 2026 is_issued) (
        and_then (marked_paid "i" payment "token" 9 2026 is_settled)
          (and_then (voided "i" 11 is_void) done)))
      tt

Steps-SameReceipt_example :
    (j : BusinessInvoice) × (row_of void.invoices "i" ≡ some j) × SameReceipt receipt j
Steps-SameReceipt_example =
    Steps-SameReceipt services settled void "i" receipt (and_then (voided "i" 11 is_void) done) refl
      refl

abbrev offer : CreateBusinessQuoteDto
offer = record {
  number = none;
  client_id = "c";
  project_id = some "p";
  opportunity_id = none;
  title = "Audit";
  status = none;
  issued_on = 20260201;
  valid_until = 20260301;
  tax_rate = some 1600;
  currency = none;
  payment_terms = none;
  notes = none;
  lines = record { description = "Audit"; quantity = 250; unit_price_cdf = 400 } ∷ [];
  business_unit_code = none;
}

abbrev start : Deals
start = record { books = books; opportunities = []; quotes = []; units = ("u", "khi-lab") ∷ [] }

abbrev quote : BusinessQuote
quote = new_quote services offer "DEV-2026-00001" "u" "q" 3

abbrev offered : Deals
offered = record start {
  quotes = quote ∷ [];
  books = record books {
    sequences =
        record { prefix = "FAC"; year = 2026; last_value = 6 }
        ∷ record { prefix = "DEV"; year = 2026; last_value = 1 }
        ∷ [];
  };
}

is_offered : create_quote services start offer "q" 3 2026 ≡ ok offered
unfolding create_quote assert_quote_links next_business_number
is_offered = refl

abbrev conversion : ConvertQuoteToInvoiceDto
conversion = record { due_on = 20260501; status = none }

abbrev billed : Deals
billed = record offered {
  quotes = record quote { status = accepted; updated_at = 8 } ∷ [];
  books = record books {
    invoices =
        new_invoice (converted_dto start.units quote "p" conversion 20260310) (some lines) 160
          "FAC-2026-00007" "u" "j" 8
        ∷ [];
    sequences =
        record { prefix = "FAC"; year = 2026; last_value = 7 }
        ∷ record { prefix = "DEV"; year = 2026; last_value = 1 }
        ∷ [];
  };
}

is_billed : convert_quote services offered "q" conversion "j" 8 2026 20260310 ≡ ok billed
unfolding convert_quote create_invoice update_quote assert_invoice_contract checked_tax
    next_business_number assert_quote_links trim
is_billed = refl

convert_quote-invoice_example :
    (i : BusinessInvoice) × (billed.books.invoices ≡ offered.books.invoices ++ i ∷ [])
    × (i.id ≡ "j")
    × (i.amount_cdf ≡ 1160)
convert_quote-invoice_example =
    let (i, added, own, amount, tax, rate, client, project, currency, unpaid, same) =
      convert_quote-invoice services offered billed "q" conversion "j" 8 2026 20260310 quote
        (((refl, tt), refl, refl, refl), tt) refl (λ e. cc e) is_billed in
    (i, added, own, amount)

DealSteps-AllInOrder_example :
    AllConsistent services billed
    × All (λ (i : BusinessInvoice). Balanced services i ⊎ In i.id []) billed.books.invoices
DealSteps-AllInOrder_example =
    DealSteps-AllInOrder services start billed
      (next (quote_created offer "q" 3 2026 is_offered)
        (next (converted "q" conversion "j" 8 2026 20260310 is_billed) ended))
      (tt, tt)

reserve_all-refines_example :
    (after : List NumberSequence) × (reserve_all false counters (("FAC", 2026) ∷ ("FAC", 2026) ∷ [])
      ≡ some (after, (count_all (last counters) (("FAC", 2026) ∷ ("FAC", 2026) ∷ [])).1))
    × (last after ≡ (count_all (last counters) (("FAC", 2026) ∷ ("FAC", 2026) ∷ [])).0)
reserve_all-refines_example =
    reserve_all-refines false counters (("FAC", 2026) ∷ ("FAC", 2026) ∷ [])
