-- ===== src/Business/Reminders.antt =====
-- The automatic reminders of src/business/business-operations.service.ts
-- (`syncAutomaticReminders`, `upsertAutomatic`) and src/business/business-reminder.entity.ts. The days
-- in 7 and in 14 days, the hour of a reminder and the uuid of a new one are arguments.
pub mod Service
pub mod Settled
pub mod Due
pub mod Listed
pub mod Current
use nola_hq_backend.Common.{
  ℕ, Bool, true, false, not, ◌&&◌, ◌||◌, Option, none, some, List, [], ◌∷◌, ◌++◌, map, ◌==◌, nat_eq,
  string_eq, option_eq, contains, if◌then◌else◌, ltb, String,
}
use Prim.Native.String.{◌++◌ as str_append}
use nola_hq_backend.Business.Invoices.{
  BusinessInvoiceStatus, draft as invoice_draft, paid as invoice_paid,
  cancelled as invoice_cancelled, BusinessInvoice,
}
use nola_hq_backend.Business.Quotes.{
  BusinessQuoteStatus, draft as quote_draft, sent as quote_sent, BusinessQuote,
}

pub data BusinessReminderStatus : Type 0 where
  pending done dismissed : BusinessReminderStatus

pub data BusinessReminderEntityType : Type 0 where
  on_opportunity on_contract on_quote on_invoice on_project : BusinessReminderEntityType

pub record BusinessReminder : Type 0 where
  pub id : String
  pub fingerprint : Option String
  pub entity_type : BusinessReminderEntityType
  pub entity_id : String
  pub title : String
  pub due_at : ℕ
  pub assignee : Option String
  pub status : BusinessReminderStatus
  pub automatic : Bool
  pub note : Option String
  pub created_at : ℕ
  pub updated_at : ℕ

pub data BusinessContractStatus : Type 0 where
  draft sent signed active completed cancelled : BusinessContractStatus

-- the columns of a contract that a reminder is made from
pub record ContractTerm : Type 0 where
  pub id : String
  pub number : String
  pub status : BusinessContractStatus
  pub end_date : Option ℕ

-- The days that a sync reads from the clock, and what it is given.
pub record Today : Type 0 where
  pub now : ℕ
  pub today : ℕ
  pub in_7_days : ℕ
  pub in_14_days : ℕ
  pub nine_o_clock : ℕ → ℕ
  pub id_for : String → String

-- The arguments of one call of `upsertAutomatic`.
pub record Upsert : Type 0 where
  pub fingerprint : String
  pub entity_type : BusinessReminderEntityType
  pub entity_id : String
  pub title : String
  pub date : ℕ

abbrev pub asks_payment : BusinessInvoiceStatus → Bool
asks_payment invoice_paid = false
asks_payment invoice_cancelled = false
asks_payment invoice_draft = false
asks_payment _ = true

abbrev pub is_offered : BusinessQuoteStatus → Bool
is_offered quote_draft = true
is_offered quote_sent = true
is_offered _ = false

abbrev pub is_running : BusinessContractStatus → Bool
is_running signed = true
is_running active = true
is_running _ = false

-- the three loops
abbrev pub invoice_upserts : Today → List BusinessInvoice → List Upsert
invoice_upserts day [] = []
invoice_upserts day (i ∷ rows) =
    let others = invoice_upserts day rows in
    if not (asks_payment i.status) || ltb day.in_7_days i.due_on
    then others
    else record {
      fingerprint = str_append "invoice-due:" i.id;
      entity_type = on_invoice;
      entity_id = i.id;
      title =
          if ltb i.due_on day.today
          then str_append "Facture " (str_append i.number " en retard")
          else str_append "Facture " (str_append i.number " bientôt à échéance");
      date = i.due_on;
    }
      ∷ others

abbrev pub quote_upserts : Today → List BusinessQuote → List Upsert
quote_upserts day [] = []
quote_upserts day (q ∷ rows) =
    let others = quote_upserts day rows in
    if not (is_offered q.status) || ltb day.in_7_days q.valid_until
    then others
    else record {
      fingerprint = str_append "quote-expiry:" q.id;
      entity_type = on_quote;
      entity_id = q.id;
      title = str_append "Devis " (str_append q.number " arrive à expiration");
      date = q.valid_until;
    }
      ∷ others

abbrev pub contract_upserts : Today → List ContractTerm → List Upsert
contract_upserts day [] = []
contract_upserts day (c ∷ rows) =
    let others = contract_upserts day rows in
    elim c.end_date [
      | none ↦ others
      | some last ↦
          if not (is_running c.status) || ltb day.in_14_days last
          then others
          else record {
            fingerprint = str_append "contract-end:" c.id;
            entity_type = on_contract;
            entity_id = c.id;
            title = str_append "Contrat " (str_append c.number " arrive à son terme");
            date = last;
          }
            ∷ others
    ]

abbrev pub upserts_of :
    Today → List BusinessInvoice → List BusinessQuote → List ContractTerm → List Upsert
upserts_of day invoices quotes contracts =
    invoice_upserts day invoices ++ quote_upserts day quotes ++ contract_upserts day contracts

abbrev pub is_waiting : BusinessReminderStatus → Bool
is_waiting pending = true
is_waiting _ = false

abbrev pub new_reminder : Today → Upsert → BusinessReminder
new_reminder day u = record {
  id = day.id_for u.fingerprint;
  fingerprint = some u.fingerprint;
  entity_type = u.entity_type;
  entity_id = u.entity_id;
  title = u.title;
  due_at = day.nine_o_clock u.date;
  assignee = none;
  status = pending;
  automatic = true;
  note = none;
  created_at = day.now;
  updated_at = day.now;
}

abbrev pub refreshed : Today → Upsert → BusinessReminder → BusinessReminder
refreshed day u r =
    if is_waiting r.status
    then record r { title = u.title; due_at = day.nine_o_clock u.date; updated_at = day.now }
    else r

-- `upsertAutomatic`: the first row with the fingerprint, or a new one
unfoldable pub upsert_automatic : Today → List BusinessReminder → Upsert → List BusinessReminder
upsert_automatic day [] u = new_reminder day u ∷ []
upsert_automatic day (r ∷ rows) u =
    let others = upsert_automatic day rows u in
    if r.fingerprint == some u.fingerprint then refreshed day u r ∷ rows else r ∷ others

abbrev pub upsert_all : Today → List BusinessReminder → List Upsert → List BusinessReminder
upsert_all day rows [] = rows
upsert_all day rows (u ∷ upserts) = upsert_all day (upsert_automatic day rows u) upserts

abbrev pub is_gone : List String → Option String → Bool
is_gone fingerprints none = false
is_gone fingerprints (some f) = not (contains fingerprints f)

-- `item.fingerprint && !active.has(item.fingerprint)`, of a pending automatic row
abbrev pub is_obsolete : List String → BusinessReminder → Bool
is_obsolete fingerprints r =
    r.automatic && is_waiting r.status && is_gone fingerprints r.fingerprint

abbrev pub fingerprints_of : List Upsert → List String
fingerprints_of upserts = map (λ (u : Upsert). u.fingerprint) upserts

-- `syncAutomaticReminders`
unfoldable pub sync :
    Today
    → List BusinessReminder
    → List BusinessInvoice
    → List BusinessQuote
    → List ContractTerm
    → List BusinessReminder
unfolding upsert_automatic
sync day rows invoices quotes contracts =
    let upserts = upserts_of day invoices quotes contracts in
    map
      (λ (r : BusinessReminder).
        if is_obsolete (fingerprints_of upserts) r
        then (record r { status = dismissed; updated_at = day.now })
        else r)
      (upsert_all day rows upserts)
