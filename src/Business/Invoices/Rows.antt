-- ===== src/Business/Invoices/Rows.antt =====
-- The table of invoices that src/business/business.service.ts reads and saves rows of. A save that
-- breaks a unique index fails, and the transaction with it.
use nola_hq_backend.Common.{
  ℕ, Bool, true, false, not, ◌&&◌, ◌||◌, Option, none, some, List, [], ◌∷◌, ◌++◌, map, ◌==◌, nat_eq,
  string_eq, option_eq, find, any, if◌then◌else◌, String, Result, ok, ◌>>◌, throw_if, or_throw,
  internal_error,
}
use nola_hq_backend.Business.Numbers.{NumberSequence, next_business_number}
use nola_hq_backend.Business.Invoices.{BusinessInvoice, Books, Services}

abbrev pub is_given {ℓ} : {A : Type ℓ} → Option A → Bool
is_given none = false
is_given (some a) = true

-- `findOne({ where: { id } })`
abbrev pub row_of : List BusinessInvoice → String → Option BusinessInvoice
row_of rows id = find (λ (r : BusinessInvoice). r.id == id) rows

abbrev pub numbered : List BusinessInvoice → String → Bool
numbered rows number = any (λ (r : BusinessInvoice). r.number == number) rows

-- Another row with a value that is unique: the number, the receipt's number, the token.
abbrev pub clashes : BusinessInvoice → BusinessInvoice → Bool
clashes row r =
    not (r.id == row.id)
    && (r.number == row.number
        || (is_given row.receipt_number && r.receipt_number == row.receipt_number)
        || (is_given row.verification_token && r.verification_token == row.verification_token))

-- `save` of a row of the table
abbrev pub save_row : Books → BusinessInvoice → List NumberSequence → Result Books
save_row books row written =
    throw_if (any (clashes row) books.invoices) internal_error
    >> ok (record books {
      invoices = map (λ (r : BusinessInvoice). if r.id == row.id then row else r) books.invoices;
      sequences = written;
    })

-- `save` of a new row: its id is not in the table
abbrev pub insert_row : Books → BusinessInvoice → List NumberSequence → Result Books
insert_row books row written =
    throw_if (is_given (row_of books.invoices row.id)) internal_error
    >> throw_if (any (clashes row) books.invoices) internal_error
    >> ok (record books { invoices = books.invoices ++ row ∷ []; sequences = written })

-- `nextBusinessNumber`, inside the transaction
abbrev pub reserve :
    Services → List NumberSequence → String → ℕ → Result (List NumberSequence × String)
reserve services sequences prefix year =
    or_throw
      (next_business_number services.four_digits services.five_digits services.is_postgres sequences
        prefix year)
      internal_error

-- `dto.number?.trim() || (await nextBusinessNumber(manager, 'FAC'))`
abbrev pub number_for :
    Services → List NumberSequence → Option String → ℕ → Result (List NumberSequence × String)
number_for services sequences none year = reserve services sequences "FAC" year
number_for services sequences (some number) year = ok (sequences, number)
