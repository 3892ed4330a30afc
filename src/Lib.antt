-- ===== src/Lib.antt =====
-- A verification library for the Nola HQ backend: the backlog of work items with its board,
-- hierarchy, dependencies, sprints, triage and attachments, the register of releases that reads and
-- writes the same rows, the roadmap's board, the placement of imported items, handoff
-- codes, the business documents (numbers, invoices, quotes), the business units that a user sees, and
-- the support tickets with their SLA clocks.
--
-- How the parts interact: `WorkItemsService` owns the table of work items. It asks the board
-- (`planMove`) where rows go when a card moves, the hierarchy (`checkParent`) whether an item may be
-- filed under another, and the planning service whether a sprint fits. `ReleasesService` reads and
-- writes the release of the same rows. A quote is converted by `createInvoice`, whose checks it has to
-- pass; invoices, receipts and quotes take their numbers from one table of sequences. A ticket is found
-- only in the units that the resolver gives for the user's roles, and the sweep of the SLA clocks reads
-- the events that the ticket's operations leave.
--
--   Common       shared types, list and option lemmas, results, graphs, the stable sort, `trim`
--   Board        src/work-items/work-items.board.ts and src/roadmap/roadmap.board.ts: `planMove` is
--                `plan_move`, over any identifiers and statuses with a comparison of identifiers
--   WorkItems    src/work-items: Types (the entities), Hierarchy (work-item-hierarchy.ts), Planning
--                (work-planning.service.ts: Dependencies, Sprints), Service
--                (work-items.service.ts: Triage, Filing for `capture` and `create`, Editing for
--                `update`, Moving for `move` and `closeExpiredResolved`, Attached for comments,
--                subtasks and attachments)
--   Releases     src/releases/releases.service.ts, with Registry, Contents and Cascade
--   Roadmap      src/roadmap/roadmap.board.ts: `buildBoard`, and `planMove` on initiatives
--   Assist       src/assist/handoff.store.ts: codes that are redeemed once
--   Execution    src/execution-references/execution-placement.ts: the placement of imported items
--   Business     src/business: Numbers (business-number-sequence.ts), Invoices (`createInvoice`,
--                `updateInvoice`, `markPaid`, `voidReceipt` of business.service.ts), Quotes
--                (`createQuote`, `updateQuote`, `convertQuote` of business-operations.service.ts), Reminders
--                (`syncAutomaticReminders`, `createReminder`, `updateReminder` there)
--   Units        src/common/auth/hq-role.enum.ts and src/company/business-unit-resolver.service.ts
--   Tickets      src/tickets: Filing and Service (tickets.service.ts), Sla (sla-elapsed.ts and
--                tickets-sla-breach.scheduler.ts)
--   Tests        the theorems at concrete inputs
--
-- State: a table is the list of its rows in the order of their creation; an operation takes the
-- tables it reads and gives the tables it leaves. A handler that throws gives the exception as a
-- value of `Result`, without its message. The time and the ids that the database draws are
-- arguments. Operations run one at a time. A timestamp is a number of milliseconds, and a day
-- `YYYY-MM-DD` the number YYYYMMDD, whose order is that of the text. An identifier that is a uuid is
-- a string.
--
-- Fuel: `climb`, `lineage_from` and `reach_loop` walk stored references that might loop; each takes
-- one unit for a step. One step more than there are items suffices for the first two, and two more
-- than there are dependencies for the third; these bounds are proved. `resolve_from`
-- climbs from an imported item, and one step more than there are keys suffices. `descend` takes the eight
-- levels that the source itself allows.
--
-- Money is a whole number; quantities and tax rates are in hundredths. A save that breaks a unique
-- index fails, and its transaction with it.
--
-- Parameters: the rounding of a line's total and of a tax (floating point), the numerals of a number and
-- of an SLA, the lower case of a source, `slugifyProjectName` (Unicode normalisation), the two digits of a reference
-- (JavaScript numerals), `localeCompare`, the cut of an attachment's name, and whether a file could be written. A
-- key that a request leaves out is no property of its dto. An id of another row that is assigned is the one that a save writes, also
-- where the row was read with that relation.
--
-- Not modelled: the columns of a work item that nothing decides on (category, hours, progress,
-- meeting), the detail of recorded changes, notifications and push messages, queries that only
-- list, files on disk, whom an alert goes to, the domain and capability of a ticket, `null` for a
-- column that has no null, and the other services of the repository (clients, contracts, expenses and
-- figures of the business module, the policies of the SLA, the roadmap's own service, the imports themselves, authentication, infrastructure and
-- third-party clients).
pub mod Common
pub mod Board
pub mod WorkItems
pub mod Releases
pub mod Roadmap
pub mod Assist
pub mod Execution
pub mod Business
pub mod Units
pub mod Tickets
pub mod Tests
