-- ===== src/Business.antt =====
-- The business documents of src/business: their numbers, invoices and quotes. A day `YYYY-MM-DD` is
-- the number YYYYMMDD.
pub mod Numbers
pub mod Invoices
pub mod Quotes
pub mod Reminders
