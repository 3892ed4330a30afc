-- ===== src/Business/Quotes/History.antt =====
-- Quotes and invoices together: what any run of their operations leaves.
use nola_hq_backend.Common.{
  ℕ, ◌≡◌, subst, String, List, [], ◌++◌, In, All, ◌⊎◌, ok, or_throw, not_found, bad_request, inl,
  inr, Bool-cases, >>=-eq-ok,
}
use nola_hq_backend.Common.Excepted.{All-without, All-chained, All-only}
use nola_hq_backend.Common.Rows.{ok-same}
use nola_hq_backend.WorkItems.Service.Filing.{truthy}
use nola_hq_backend.Business.Invoices.{BusinessInvoice, Books, Services}
use nola_hq_backend.Business.Invoices.Service.{create_invoice}
use nola_hq_backend.Business.Invoices.Kept.{
  Step, created, nulled, AllBalanced, BalancedBut, Step-BalancedBut,
}
use nola_hq_backend.Business.Invoices.Balance.{Balanced}
use nola_hq_backend.Business.Quotes.{
  BusinessQuote, CreateBusinessQuoteDto, UpdateBusinessQuoteDto, ConvertQuoteToInvoiceDto, Deals,
}
use nola_hq_backend.Business.Quotes.Service.{quote_of, is_accepted, create_quote, update_quote}
use nola_hq_backend.Business.Quotes.Conversion.{converted_dto, accept, accept_quote, convert_quote}
use nola_hq_backend.Business.Quotes.Totals.{
  AllConsistent, create_quote-AllConsistent, update_quote-AllConsistent,
}
use nola_hq_backend.Business.Quotes.Converted.{
  create_quote-invoices, update_quote-books, accept_quote-books,
}

module _ (services : Services) where
  -- One accepted operation on the quotes, or on the invoices beside them.
  pub data DealStep : Deals → Deals → Type 0 where
    quote_created :
        {d d' : Deals} (dto : CreateBusinessQuoteDto) (new_id : String) (now year : ℕ)
        → create_quote services d dto new_id now year ≡ ok d'
        → DealStep d d'
    quote_updated :
        {d d' : Deals} (id : String) (dto : UpdateBusinessQuoteDto) (now : ℕ)
        → update_quote services d id dto now ≡ ok d'
        → DealStep d d'
    converted :
        {d d' : Deals} (id : String) (dto : ConvertQuoteToInvoiceDto) (new_id : String)
        (now year today : ℕ)
        → convert_quote services d id dto new_id now year today ≡ ok d'
        → DealStep d d'
    on_invoices :
        {d : Deals} {b : Books} → Step services d.books b → DealStep d (record d { books = b })

  pub data DealSteps : Deals → Deals → Type 0 where
    ended : {d : Deals} → DealSteps d d
    next : {d d' d'' : Deals} → DealStep d d' → DealSteps d' d'' → DealSteps d d''

  -- The ids of the invoices to which an update sent a `null` amount.
  abbrev pub deal_nulled : {d d' : Deals} → DealStep d d' → List String
  deal_nulled (on_invoices s) = nulled services s
  deal_nulled _ = []

  abbrev pub deals_nulled : {d d' : Deals} → DealSteps d d' → List String
  deals_nulled ended = []
  deals_nulled (next s rest) = deals_nulled rest ++ deal_nulled s

  abbrev pub AllInOrder : Deals → Type 0
  AllInOrder d = AllConsistent services d × AllBalanced services d.books

  abbrev pub InOrderBut : List String → Deals → Type 0
  InOrderBut ids d = AllConsistent services d × BalancedBut services ids d.books

  accept_quote-AllConsistent :
      (d d' : Deals) (id : String) (quote : BusinessQuote) (now : ℕ)
      → accept_quote services d id quote now ≡ ok d'
      → AllConsistent services d
      → AllConsistent services d'
  accept_quote-AllConsistent d d' id quote now h old =
      elim (Bool-cases (is_accepted quote.status)) [
        | inl done ↦ subst (AllConsistent services) (ok-same (rw done at h)) old
        | inr pending ↦ update_quote-AllConsistent services d d' id accept now (rw pending at h) old
      ]

  DealStep-InOrderBut :
      (d d' : Deals) (ids : List String) (s : DealStep d d')
      → InOrderBut ids d
      → InOrderBut (deal_nulled s ++ ids) d'
  unfolding convert_quote
  DealStep-InOrderBut d d' ids (quote_created dto new_id now year h) (quotes, invoices) = (
    create_quote-AllConsistent services d d' dto new_id now year h quotes,
    rw (create_quote-invoices services d d' dto new_id now year h) invoices,
  )
  DealStep-InOrderBut d d' ids (quote_updated id dto now h) (quotes, invoices) = (
    update_quote-AllConsistent services d d' id dto now h quotes,
    rw (update_quote-books services d d' id dto now h) invoices,
  )
  DealStep-InOrderBut d d' ids (converted id dto new_id now year today h) (quotes, invoices) =
      let (quote, found, h1) = >>=-eq-ok (or_throw (quote_of d.quotes id) not_found) _ h in
      let (project_id, project, h2) =
        >>=-eq-ok (or_throw (truthy quote.project_id) bad_request) _ h1 in
      let asked = converted_dto d.units quote project_id dto today in
      let (books, stored, h3) =
        >>=-eq-ok (create_invoice services d.books asked new_id now year) _ h2 in
      let d1 : Deals = record d { books = books } in
      (
        accept_quote-AllConsistent d1 d' id quote now h3 quotes,
        rw (accept_quote-books services d1 d' id quote now h3) (
            Step-BalancedBut services d.books books ids (created asked new_id now year stored)
              invoices),
      )
  DealStep-InOrderBut d d' ids (on_invoices s) (quotes, invoices) =
      (quotes, Step-BalancedBut services d.books _ ids s invoices)

  DealSteps-InOrderBut :
      (d d' : Deals) (ids : List String) (s : DealSteps d d')
      → InOrderBut ids d
      → InOrderBut (deals_nulled s ++ ids) d'
  DealSteps-InOrderBut d d' ids ended all = all
  DealSteps-InOrderBut d d' ids (next {d' = middle} s rest) all =
      let (quotes, invoices) =
        DealSteps-InOrderBut middle d' (deal_nulled s ++ ids) rest
          (DealStep-InOrderBut d middle ids s all) in
      (
        quotes,
        All-chained (Balanced services) (λ (i : BusinessInvoice). i.id) (deals_nulled rest)
            (deal_nulled s) ids d'.books.invoices invoices,
      )

  -- Whatever is done to quotes and invoices, every quote's subtotal, tax and total stay those of
  -- its lines, and every invoice stays balanced but those to which an update sent `null` as an
  -- amount, if all are so at the start.
  pub DealSteps-AllInOrder :
      (d d' : Deals) (s : DealSteps d d')
      → AllInOrder d
      → AllConsistent services d'
        × All
            (λ (i : BusinessInvoice). Balanced services i ⊎ In i.id (deals_nulled s))
            d'.books.invoices
  DealSteps-AllInOrder d d' s (quotes, invoices) =
      let key = λ (i : BusinessInvoice). i.id in
      let (quotes', invoices') =
        DealSteps-InOrderBut d d' [] s
          (quotes, All-without (Balanced services) key d.books.invoices invoices) in
      (quotes', All-only (Balanced services) key (deals_nulled s) d'.books.invoices invoices')
