-- ===== src/Business/Quotes/Service.antt =====
-- `createQuote` and `updateQuote` of src/business/business-operations.service.ts.
-- The uuids, the time and the day are arguments.
use nola_hq_backend.Common.{
  ℕ, Bool, true, false, not, ◌&&◌, Option, none, some, List, [], ◌∷◌, ◌++◌, map, ◌==◌, string_eq,
  find, any, if◌then◌else◌, ltb, String, Result, ok, ◌>>=◌, ◌>>◌, throw_if, or_throw, not_found,
  bad_request, conflict, internal_error,
}
use mathlib.Core.Option.{get_or}
use nola_hq_backend.Common.Text.{trim, trim_or_null}
use nola_hq_backend.WorkItems.Planning.Sprints.{assigned}
use nola_hq_backend.WorkItems.Service.Filing.{truthy}
use nola_hq_backend.Business.Numbers.{NumberSequence}
use nola_hq_backend.Business.Invoices.{Services, cdf}
use nola_hq_backend.Business.Invoices.Rows.{reserve}
use nola_hq_backend.Business.Quotes.{
  BusinessQuote, BusinessQuoteStatus, draft, accepted, BusinessOpportunity, won,
  CreateBusinessQuoteDto, UpdateBusinessQuoteDto, Deals, totals, as_dto, assert_quote_links,
}

abbrev pub is_accepted : BusinessQuoteStatus → Bool
is_accepted accepted = true
is_accepted _ = false

abbrev pub quote_of : List BusinessQuote → String → Option BusinessQuote
quote_of quotes id = find (λ (q : BusinessQuote). q.id == id) quotes

abbrev pub quoted : List BusinessQuote → Option String → Bool
quoted quotes none = false
quoted quotes (some number) = any (λ (q : BusinessQuote). q.number == number) quotes

-- Another quote with the number, which is unique.
abbrev pub same_number : BusinessQuote → BusinessQuote → Bool
same_number row q = not (q.id == row.id) && q.number == row.number

abbrev pub save_quote : Deals → BusinessQuote → Result Deals
save_quote deals row =
    throw_if (any (same_number row) deals.quotes) internal_error
    >> ok (record deals {
      quotes = map (λ (q : BusinessQuote). if q.id == row.id then row else q) deals.quotes;
    })

abbrev pub insert_quote : Deals → BusinessQuote → List NumberSequence → Result Deals
insert_quote deals row written =
    throw_if (any (λ (q : BusinessQuote). q.id == row.id) deals.quotes) internal_error
    >> throw_if (any (same_number row) deals.quotes) internal_error
    >> ok (record deals {
      quotes = deals.quotes ++ row ∷ [];
      books = record deals.books { sequences = written };
    })

abbrev pub quote_number :
    Services → List NumberSequence → Option String → ℕ → Result (List NumberSequence × String)
quote_number services sequences none year = reserve services sequences "DEV" year
quote_number services sequences (some number) year = ok (sequences, number)

abbrev pub new_quote :
    Services
    → CreateBusinessQuoteDto
    → (number business_unit_id new_id : String) → (now : ℕ) → BusinessQuote
new_quote services dto number business_unit_id new_id now =
    let tax_rate = get_or dto.tax_rate 0 in
    let computed = totals services dto.lines tax_rate in
    record {
      id = new_id;
      number = number;
      client_id = dto.client_id;
      project_id = dto.project_id;
      opportunity_id = dto.opportunity_id;
      business_unit_id = business_unit_id;
      title = trim dto.title;
      status = get_or dto.status draft;
      issued_on = dto.issued_on;
      valid_until = dto.valid_until;
      tax_rate = tax_rate;
      subtotal_cdf = computed.subtotal_cdf;
      tax_cdf = computed.tax_cdf;
      total_cdf = computed.total_cdf;
      currency = get_or dto.currency cdf;
      payment_terms = trim_or_null dto.payment_terms;
      notes = trim_or_null dto.notes;
      lines = computed.normalized;
      created_at = now;
      updated_at = now;
    }

-- `createQuote`
unfoldable pub create_quote :
    Services → Deals → CreateBusinessQuoteDto → (new_id : String) → (now year : ℕ) → Result Deals
create_quote services deals dto new_id now year =
    assert_quote_links deals dto.client_id dto.project_id dto.opportunity_id
    >> throw_if (ltb dto.valid_until dto.issued_on) bad_request
    >> throw_if (quoted deals.quotes (trim_or_null dto.number)) conflict
    >> (services.resolve (get_or dto.business_unit_code "khi-lab") >>= λ unit.
        quote_number services deals.books.sequences (trim_or_null dto.number) year
        >>= λ ((written, number) : List NumberSequence × String).
            insert_quote deals (new_quote services dto number unit new_id now) written)

abbrev pub renumbered : List BusinessQuote → BusinessQuote → Option String → Bool
renumbered quotes quote asked = elim (truthy asked) [
  | none ↦ false
  | some number ↦ not (number == quote.number) && quoted quotes (some number)
]

-- `dto.x ?? quote.x` of a nullable field
abbrev pub or_else {ℓ} : {A : Type ℓ} → Option A → Option A → Option A
or_else none old = old
or_else (some v) old = some v

abbrev pub updated_quote :
    Services → BusinessQuote → UpdateBusinessQuoteDto → (now : ℕ) → BusinessQuote
updated_quote services quote dto now =
    let lines = get_or dto.lines (map as_dto quote.lines) in
    let tax_rate = assigned dto.tax_rate quote.tax_rate in
    let computed = totals services lines tax_rate in
    record quote {
      number = assigned dto.number quote.number;
      client_id = assigned dto.client_id quote.client_id;
      project_id = or_else dto.project_id quote.project_id;
      opportunity_id = or_else dto.opportunity_id quote.opportunity_id;
      title = elim dto.title [ none ↦ quote.title | some title ↦ trim title ];
      status = assigned dto.status quote.status;
      issued_on = assigned dto.issued_on quote.issued_on;
      valid_until = assigned dto.valid_until quote.valid_until;
      tax_rate = tax_rate;
      subtotal_cdf = computed.subtotal_cdf;
      tax_cdf = computed.tax_cdf;
      total_cdf = computed.total_cdf;
      currency = assigned dto.currency quote.currency;
      payment_terms = assigned dto.payment_terms quote.payment_terms;
      notes = assigned dto.notes quote.notes;
      lines = elim dto.lines [ none ↦ quote.lines | some given ↦ computed.normalized ];
      updated_at = now;
    }

-- `opportunities.update(quote.opportunityId, { stage: 'won', … })`
abbrev pub won_opportunity : List BusinessOpportunity → Option String → ℕ → List BusinessOpportunity
won_opportunity opportunities none now = opportunities
won_opportunity opportunities (some id) now =
    map
      (λ (o : BusinessOpportunity).
        if o.id == id then (record o { stage = won; probability = 100; updated_at = now }) else o)
      opportunities

abbrev pub win : UpdateBusinessQuoteDto → BusinessQuote → ℕ → Deals → Deals
win dto quote now deals = elim dto.status [
  | none ↦ deals
  | some status ↦
      if is_accepted status
      then (record deals {
        opportunities = won_opportunity deals.opportunities (truthy quote.opportunity_id) now;
      })
      else deals
]

-- `updateQuote`
unfoldable pub update_quote :
    Services → Deals → (id : String) → UpdateBusinessQuoteDto → (now : ℕ) → Result Deals
update_quote services deals id dto now =
    or_throw (quote_of deals.quotes id) not_found >>= λ (quote : BusinessQuote).
    assert_quote_links deals (assigned dto.client_id quote.client_id)
      (or_else dto.project_id quote.project_id) (or_else dto.opportunity_id quote.opportunity_id)
    >> throw_if
        (ltb (assigned dto.valid_until quote.valid_until) (assigned dto.issued_on quote.issued_on))
        bad_request
    >> throw_if (renumbered deals.quotes quote dto.number) conflict
    >> (save_quote deals (updated_quote services quote dto now) >>= λ saved.
        ok (win dto (updated_quote services quote dto now) now saved))
