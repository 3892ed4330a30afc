-- ===== src/Business/Invoices/Kept.antt =====
-- Runs of the operations on invoices of src/business/business.service.ts, and the balance of the rows
-- that they leave.
use nola_hq_backend.Common.{
  ℕ, ◌≤◌, ◌≡◌, ◌≢◌, refl, sym, ◌∙◌, false, ◌&&◌, Option, none, some, List, [], ◌∷◌, ◌++◌, ◌==◌,
  string_eq, String, ok, arith, inl, inr, All, In, ◌⊎◌, Bool, true, ◌||◌, if◌then◌else◌, beq→eq,
  find_sound, Bool-cases,
}
use nola_hq_backend.Common.Excepted.{ButFor, All-more, All-without, carried, All-chained, All-only}
use nola_hq_backend.Common.Rows.{All-replaced, All-found, All-added}
use mathlib.Core.Option.{get_or}
use nola_hq_backend.WorkItems.Planning.Sprints.{assigned}
use nola_hq_backend.WorkItems.Service.Filing.{truthy}
use nola_hq_backend.Business.Invoices.{
  BusinessInvoice, BusinessInvoiceLine, CreateBusinessInvoiceDto, UpdateBusinessInvoiceDto,
  MarkInvoicePaidDto, Books, Services, checked_tax, draft,
}
use nola_hq_backend.Business.Invoices.Rows.{is_given, row_of}
use nola_hq_backend.Business.Invoices.Service.{
  computed_lines, subtotal?, subtotal_for, new_invoice, updated_invoice, receipted_invoice, or_old,
  changes_financials, create_invoice, update_invoice, mark_paid, void_receipt, written_money,
}
use nola_hq_backend.Business.Invoices.Balance.{
  Balanced, Standing-payment_status, checked_tax-Itemised, or_old-written, changes_financials-kept,
}
use nola_hq_backend.Business.Invoices.Written.{
  replaced, create_invoice-written, update_invoice-written, mark_paid-written, void_receipt-written,
}

-- An amount of the request is `null`, which the checks read as "unchanged" and the table as 0.
abbrev pub is_null : Option (Option ℕ) → Bool
is_null (some none) = true
is_null _ = false

abbrev pub sends_null : UpdateBusinessInvoiceDto → Bool
sends_null dto = is_null dto.amount_cdf || is_null dto.paid_amount_cdf

null-refused : (asked : Option (Option ℕ)) → is_null asked ≡ false → asked ≢ some none
null-refused asked h e = cc (rw e at h)

module _ (services : Services) where
  -- One accepted operation on the invoices.
  pub data Step : Books → Books → Type 0 where
    created :
        {b b' : Books} (dto : CreateBusinessInvoiceDto) (new_id : String) (now year : ℕ)
        → create_invoice services b dto new_id now year ≡ ok b'
        → Step b b'
    updated :
        {b b' : Books} (id : String) (dto : UpdateBusinessInvoiceDto) (now : ℕ)
        → update_invoice services b id dto now ≡ ok b'
        → Step b b'
    marked_paid :
        {b b' : Books} (id : String) (dto : MarkInvoicePaidDto) (token : String) (now year : ℕ)
        → mark_paid services b id dto token now year ≡ ok b'
        → Step b b'
    voided : {b b' : Books} (id : String) (now : ℕ) → void_receipt b id now ≡ ok b' → Step b b'

  pub data Steps : Books → Books → Type 0 where
    done : {b : Books} → Steps b b
    and_then : {b b' b'' : Books} → Step b b' → Steps b' b'' → Steps b b''

  -- The ids of the invoices to which an update sent a `null` amount.
  abbrev pub nulled : {b b' : Books} → Step b b' → List String
  nulled (updated id dto now h) = if sends_null dto then id ∷ [] else []
  nulled _ = []

  abbrev pub all_nulled : {b b' : Books} → Steps b b' → List String
  all_nulled done = []
  all_nulled (and_then s rest) = all_nulled rest ++ nulled s

  -- Balanced, or one of the invoices with these ids.
  abbrev pub BalancedOr : List String → BusinessInvoice → Type 0
  BalancedOr ids = ButFor (Balanced services) (λ (i : BusinessInvoice). i.id) ids

  abbrev pub AllBalanced : Books → Type 0
  AllBalanced b = All (Balanced services) b.invoices

  abbrev pub BalancedBut : List String → Books → Type 0
  BalancedBut ids b = All (BalancedOr ids) b.invoices

  subtotal_for-new :
      (lines : Option (List BusinessInvoiceLine)) → subtotal? lines ≡ subtotal_for lines []
  subtotal_for-new none = refl
  subtotal_for-new (some lines) = refl

  new-Balanced :
      (dto : CreateBusinessInvoiceDto) (tax : ℕ) (number unit new_id : String) (now : ℕ)
      → checked_tax services
          (subtotal? (computed_lines services dto.lines))
          (get_or dto.tax_rate 0)
          dto.amount_cdf
        ≡ ok tax
      → get_or dto.paid_amount_cdf 0 ≤ dto.amount_cdf
      → Balanced services
          (new_invoice dto (computed_lines services dto.lines) tax number unit new_id now)
  new-Balanced dto tax number unit new_id now taxed bound = (
    bound,
    checked_tax-Itemised services (computed_lines services dto.lines) [] (get_or dto.tax_rate 0)
        dto.amount_cdf tax (rw (← subtotal_for-new (computed_lines services dto.lines)) taxed),
    Standing-payment_status (get_or dto.status draft) dto.amount_cdf (get_or dto.paid_amount_cdf 0)
        none now bound,
    inl refl,
  )

  updated-Balanced :
      (item : BusinessInvoice) (dto : UpdateBusinessInvoiceDto) (tax now : ℕ)
      → sends_null dto ≡ false
      → (is_given (truthy item.receipt_number) && changes_financials item dto) ≡ false
      → or_old dto.paid_amount_cdf item.paid_amount_cdf ≤ or_old dto.amount_cdf item.amount_cdf
      → checked_tax services
          (subtotal_for (computed_lines services dto.lines) item.lines)
          (assigned dto.tax_rate item.tax_rate)
          (or_old dto.amount_cdf item.amount_cdf)
        ≡ ok tax
      → Balanced services item
      → Balanced services (updated_invoice item dto (computed_lines services dto.lines) tax now)
  updated-Balanced item dto tax now given frozen bound taxed old =
      let a =
        or_old-written dto.amount_cdf item.amount_cdf
          (null-refused dto.amount_cdf (ground arith)) in
      let p =
        or_old-written dto.paid_amount_cdf item.paid_amount_cdf
          (null-refused dto.paid_amount_cdf (ground arith)) in
      let bound' : written_money dto.paid_amount_cdf item.paid_amount_cdf
          ≤ written_money dto.amount_cdf item.amount_cdf =
        rw (← a, ← p) bound in
      (
        bound',
        rw (← a) (
            checked_tax-Itemised services (computed_lines services dto.lines) item.lines
              (assigned dto.tax_rate item.tax_rate) (or_old dto.amount_cdf item.amount_cdf) tax
              taxed),
        rw (← a, ← p)
            (Standing-payment_status (get_or dto.status item.status)
              (or_old dto.amount_cdf item.amount_cdf)
              (or_old dto.paid_amount_cdf item.paid_amount_cdf) item.paid_at now bound),
        elim (Bool-cases (is_given (truthy item.receipt_number))) [
          | inr unreceipted ↦ inl unreceipted
          | inl receipted ↦
              let unchanged : changes_financials item dto ≡ false = ground arith in
              let (same, paid_same, rate, lines) = changes_financials-kept item dto unchanged in
              let (old_bound, old_items, old_standing, paid_up) = old in
              elim paid_up [
                | inl unreceipted ↦ inl unreceipted
                | inr whole ↦ inr (paid_same ∙ whole ∙ sym same)
              ]
        ],
      )

  receipted-Balanced :
      (item : BusinessInvoice) (dto : MarkInvoicePaidDto) (number token : String) (now : ℕ)
      → Balanced services item
      → Balanced services (receipted_invoice item dto number token now)
  receipted-Balanced item dto number token now (bound, itemised, standing, receipt) =
      (omega arith, itemised, (refl, refl), inr refl)

  replaced-BalancedOr :
      (ids : List String) (row : BusinessInvoice) (rows : List BusinessInvoice)
      → BalancedOr ids row
      → All (BalancedOr ids) rows
      → All (BalancedOr ids) (replaced row rows)
  replaced-BalancedOr ids row rows new old =
      All-replaced (BalancedOr ids) (λ (r : BusinessInvoice). r.id == row.id) row rows new old

  rewritten :
      (ids : List String) (item row : BusinessInvoice)
      → row.id ≡ item.id
      → (Balanced services item → Balanced services row)
      → BalancedOr ids item
      → BalancedOr ids row
  rewritten ids = carried (Balanced services) (λ (i : BusinessInvoice). i.id) ids

  found-BalancedOr :
      (ids : List String) (rows : List BusinessInvoice) (id : String) (item : BusinessInvoice)
      → row_of rows id ≡ some item
      → All (BalancedOr ids) rows
      → BalancedOr ids item
  found-BalancedOr ids rows id item found all =
      All-found (BalancedOr ids) (λ (r : BusinessInvoice). r.id == id) rows item found all

  -- An operation keeps every invoice balanced but the one to which it sends a `null` amount.
  pub Step-BalancedBut :
      (b b' : Books) (ids : List String) (s : Step b b')
      → BalancedBut ids b
      → BalancedBut (nulled s ++ ids) b'
  Step-BalancedBut b b' ids (created dto new_id now year h) all =
      let (tax, number, unit, taxed, bound, fresh, e) =
        create_invoice-written services b b' dto new_id now year h in
      rw e (
        All-added (BalancedOr ids) b.invoices _ all
          (inl (new-Balanced dto tax number unit new_id now taxed bound)))
  Step-BalancedBut b b' ids (updated id dto now h) all =
      let (item, tax, found, frozen, bound, taxed, e) =
        update_invoice-written services b b' id dto now h in
      let old = found-BalancedOr ids b.invoices id item found all in
      let row : BusinessInvoice =
        updated_invoice item dto (computed_lines services dto.lines) tax now in
      rw e (elim (Bool-cases (sends_null dto)) [
        | inl null ↦ rw null (
            replaced-BalancedOr (id ∷ ids) row b.invoices
              (inr (
                inl (
                  beq→eq item.id id
                    (find_sound (λ (r : BusinessInvoice). r.id == id) b.invoices found).1)))
              (All-more (Balanced services) (λ (i : BusinessInvoice). i.id) (id ∷ []) ids b.invoices
                all))
        | inr given ↦ rw given (
            replaced-BalancedOr ids row b.invoices
              (rewritten ids item row refl
                (updated-Balanced item dto tax now given frozen bound taxed) old)
              all)
      ])
  Step-BalancedBut b b' ids (marked_paid id dto token now year h) all =
      let (item, number, found, first, e) =
        mark_paid-written services b b' id dto token now year h in
      let row : BusinessInvoice = receipted_invoice item dto number token now in
      rw e (
        replaced-BalancedOr ids row b.invoices
          (rewritten ids item row refl (receipted-Balanced item dto number token now)
            (found-BalancedOr ids b.invoices id item found all))
          all)
  Step-BalancedBut b b' ids (voided id now h) all =
      let (item, found, e) = void_receipt-written b b' id now h in
      let row : BusinessInvoice = record item { receipt_voided_at = some now; updated_at = now } in
      rw e (
        replaced-BalancedOr ids row b.invoices
          (rewritten ids item row refl (λ old. old)
            (found-BalancedOr ids b.invoices id item found all))
          all)

  pub Steps-BalancedBut :
      (b b' : Books) (ids : List String) (s : Steps b b')
      → BalancedBut ids b
      → BalancedBut (all_nulled s ++ ids) b'
  Steps-BalancedBut b b' ids done all = all
  Steps-BalancedBut b b' ids (and_then {b' = next} s rest) all =
      All-chained (Balanced services) (λ (i : BusinessInvoice). i.id) (all_nulled rest) (nulled s)
        ids b'.invoices
        (Steps-BalancedBut next b' (nulled s ++ ids) rest (Step-BalancedBut b next ids s all))

  -- Whatever is done to the invoices, each of them stays balanced if all are at the start, but for
  -- those to which an update sent `null` as an amount: what is paid is at most the amount, the
  -- amount is the lines' total with the tax on it where there are lines, the status and the date of
  -- payment say how much is paid, and a receipted invoice is paid in full.
  pub Steps-AllBalanced :
      (b b' : Books) (s : Steps b b')
      → AllBalanced b
      → All (λ (i : BusinessInvoice). Balanced services i ⊎ In i.id (all_nulled s)) b'.invoices
  Steps-AllBalanced b b' s all =
      let key = λ (i : BusinessInvoice). i.id in
      All-only (Balanced services) key (all_nulled s) b'.invoices
        (Steps-BalancedBut b b' [] s (All-without (Balanced services) key b.invoices all))
