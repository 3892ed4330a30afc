-- ===== src/Business/Invoices/Receipts.antt =====
-- A receipted invoice keeps what its receipt was made from.
use nola_hq_backend.Common.{
  ℕ, ◌≡◌, refl, sym, ◌∙◌, subst, false, some, List, [], ◌∷◌, ◌++◌, ◌==◌, string_eq, String, arith,
  inl, inr, Bool-cases, beq→eq, beq_self, find_sound, beq→ne, ne→beq,
}
use nola_hq_backend.Business.Invoices.{BusinessInvoice, UpdateBusinessInvoiceDto, Books, Services}
use nola_hq_backend.Business.Invoices.Rows.{row_of}
use nola_hq_backend.Business.Invoices.Service.{
  computed_lines, updated_invoice, receipted_invoice, changes_financials,
}
use nola_hq_backend.Business.Invoices.Balance.{Receipted, changes_financials-kept}
use nola_hq_backend.Business.Invoices.Written.{
  replaced, create_invoice-written, update_invoice-written, mark_paid-written, void_receipt-written,
}
use nola_hq_backend.Business.Invoices.Kept.{
  Step, created, updated, marked_paid, voided, Steps, done, and_then,
}

-- What a receipt was made from, in two versions of an invoice.
abbrev pub SameReceipt : BusinessInvoice → BusinessInvoice → Type 0
SameReceipt i j =
    (j.receipt_number ≡ i.receipt_number)
    × (j.verification_token ≡ i.verification_token)
    × (j.payment_method ≡ i.payment_method)
    × (j.amount_cdf ≡ i.amount_cdf)
    × (j.paid_amount_cdf ≡ i.paid_amount_cdf)
    × (j.tax_rate ≡ i.tax_rate)
    × (j.lines ≡ i.lines)

-- The rows of a table in which a row is written.
row_of-replaced_other :
    (rows : List BusinessInvoice) (row : BusinessInvoice) (id : String) (i : BusinessInvoice)
    → (row.id == id) ≡ false
    → row_of rows id ≡ some i
    → row_of (replaced row rows) id ≡ some i
row_of-replaced_other [] row id i apart found = cc
row_of-replaced_other (r ∷ rows) row id i apart found = elim (Bool-cases (r.id == id)) [
  | inl same ↦
      let miss : (r.id == row.id) ≡ false =
        ne→beq r.id row.id (λ q. beq→ne row.id id apart (sym q ∙ beq→eq r.id id same)) in
      rw (miss, same) (rw same at found)
  | inr other ↦ elim (Bool-cases (r.id == row.id)) [
    | inl hit ↦ rw (hit, apart) (row_of-replaced_other rows row id i apart (rw other at found))
    | inr miss ↦ rw (miss, other) (row_of-replaced_other rows row id i apart (rw other at found))
  ]
]

row_of-replaced :
    (rows : List BusinessInvoice) (row old : BusinessInvoice)
    → row_of rows row.id ≡ some old
    → row_of (replaced row rows) row.id ≡ some row
row_of-replaced [] row old found = cc
row_of-replaced (r ∷ rows) row old found = elim (Bool-cases (r.id == row.id)) [
  | inl hit ↦ rw (hit, beq_self row.id) refl
  | inr miss ↦ rw (miss, miss) (row_of-replaced rows row old (rw miss at found))
]

row_of-append :
    (rows : List BusinessInvoice) (new : BusinessInvoice) (id : String) (i : BusinessInvoice)
    → row_of rows id ≡ some i
    → row_of (rows ++ new ∷ []) id ≡ some i
row_of-append [] new id i found = cc
row_of-append (r ∷ rows) new id i found = elim (Bool-cases (r.id == id)) [
  | inl same ↦ rw same (rw same at found)
  | inr other ↦ rw other (row_of-append rows new id i (rw other at found))
]

row_of-id :
    (rows : List BusinessInvoice) (id : String) (item : BusinessInvoice)
    → row_of rows id ≡ some item
    → item.id ≡ id
row_of-id rows id item found =
    beq→eq item.id id (find_sound (λ (r : BusinessInvoice). r.id == id) rows found).1

unchanged_row : (i : BusinessInvoice) → SameReceipt i i
unchanged_row i = (refl, refl, refl, refl, refl, refl, refl)

chained_rows : (i j k : BusinessInvoice) → SameReceipt i j → SameReceipt j k → SameReceipt i k
chained_rows i j k (a, b, c, d, e, f, g) (a', b', c', d', e', f', g') =
    (a' ∙ a, b' ∙ b, c' ∙ c, d' ∙ d, e' ∙ e, f' ∙ f, g' ∙ g)

updated-SameReceipt :
    (services : Services) (item : BusinessInvoice) (dto : UpdateBusinessInvoiceDto) (tax now : ℕ)
    → changes_financials item dto ≡ false
    → SameReceipt item (updated_invoice item dto (computed_lines services dto.lines) tax now)
updated-SameReceipt services item dto tax now unchanged =
    let (amount, paid_amount, rate, no_lines) = changes_financials-kept item dto unchanged in
    (refl, refl, refl, amount, paid_amount, rate, rw no_lines refl)

-- Where the row that is written has the receipt of the row that it replaces, every row has.
replaced-SameReceipt :
    (rows : List BusinessInvoice) (asked : String) (item row : BusinessInvoice) (id : String)
    (i : BusinessInvoice)
    → row_of rows asked ≡ some item
    → row.id ≡ item.id
    → row_of rows id ≡ some i
    → (Receipted item → SameReceipt item row)
    → Receipted i
    → (j : BusinessInvoice) × (row_of (replaced row rows) id ≡ some j) × SameReceipt i j
replaced-SameReceipt rows asked item row id i found own there same receipted =
    elim (Bool-cases (row.id == id)) [
      | inr other ↦ (i, row_of-replaced_other rows row id i other there, unchanged_row i)
      | inl hit ↦
          let e : row.id ≡ id = beq→eq row.id id hit in
          let a : asked ≡ id = sym (row_of-id rows asked item found) ∙ sym own ∙ e in
          let i_item : item ≡ i = cc (found, there, a) in
          let found' : row_of rows row.id ≡ some i = rw e there in
          (
            row,
            subst (λ k. row_of (replaced row rows) k ≡ some row) e
                (row_of-replaced rows row i found'),
            subst (λ k. SameReceipt k row) i_item (same (rw i_item receipted)),
          )
    ]

Step-SameReceipt :
    (services : Services) (b b' : Books) (id : String) (i : BusinessInvoice)
    → Step services b b'
    → row_of b.invoices id ≡ some i
    → Receipted i
    → (j : BusinessInvoice) × (row_of b'.invoices id ≡ some j) × SameReceipt i j
Step-SameReceipt services b b' id i (created dto new_id now year h) there receipted =
    let (tax, number, unit, taxed, bound, fresh, e) =
      create_invoice-written services b b' dto new_id now year h in
    (i, rw e (row_of-append b.invoices _ id i there), unchanged_row i)
Step-SameReceipt services b b' id i (updated asked dto now h) there receipted =
    let (item, tax, found, frozen, bound, taxed, e) =
      update_invoice-written services b b' asked dto now h in
    let (j, at_id, same) =
      replaced-SameReceipt b.invoices asked item
        (updated_invoice item dto (computed_lines services dto.lines) tax now) id i found refl there
        (λ r. updated-SameReceipt services item dto tax now (ground arith)) receipted in
    (j, rw e at_id, same)
Step-SameReceipt services b b' id i (marked_paid asked dto token now year h) there receipted =
    let (item, number, found, first, e) =
      mark_paid-written services b b' asked dto token now year h in
    let (j, at_id, same) =
      replaced-SameReceipt b.invoices asked item (receipted_invoice item dto number token now) id i
        found refl there (λ r. absurd (cc (r, first))) receipted in
    (j, rw e at_id, same)
Step-SameReceipt services b b' id i (voided asked now h) there receipted =
    let (item, found, e) = void_receipt-written b b' asked now h in
    let (j, at_id, same) =
      replaced-SameReceipt b.invoices asked item
        (record item { receipt_voided_at = some now; updated_at = now }) id i found refl there
        (λ r. unchanged_row item) receipted in
    (j, rw e at_id, same)

-- Whatever is done to the invoices, an invoice that has a receipt is never removed, and keeps the
-- receipt's number and token, the amounts, the method of payment, the tax rate and the lines.
pub Steps-SameReceipt :
    (services : Services) (b b' : Books) (id : String) (i : BusinessInvoice)
    → Steps services b b'
    → row_of b.invoices id ≡ some i
    → Receipted i
    → (j : BusinessInvoice) × (row_of b'.invoices id ≡ some j) × SameReceipt i j
Steps-SameReceipt services b b' id i done there receipted = (i, there, unchanged_row i)
Steps-SameReceipt services b b' id i (and_then {b' = next} s rest) there receipted =
    let (j, at_id, first) = Step-SameReceipt services b next id i s there receipted in
    let (k, at_end, then_same) =
      Steps-SameReceipt services next b' id j rest at_id (rw first.0 receipted) in
    (k, at_end, chained_rows i j k first then_same)
