-- ===== src/Tests/Reminders.antt =====
-- A contract that ends soon, and a reminder that was done.
use nola_hq_backend.Common.{◌≡◌, refl, true, some, none, [], ◌∷◌, ◌⊎◌, In, inl, inr, arith}
use nola_hq_backend.Business.Reminders.{
  BusinessReminder, ContractTerm, Today, new_reminder, upsert_automatic, done, signed, on_contract,
  sync,
}
use nola_hq_backend.Business.Reminders.Settled.{Visit, syncs, syncs-settled}
use nola_hq_backend.Business.Reminders.Due.{Due}
use nola_hq_backend.Business.Reminders.Current.{
  has_pending, has_settled, sync-reminds, sync-current,
}

abbrev day : Today
day = record {
  now = 5;
  today = 20260301;
  in_7_days = 20260308;
  in_14_days = 20260315;
  nine_o_clock = λ d. d;
  id_for = λ f. f;
}

abbrev term : ContractTerm
term = record { id = "k"; number = "C-1"; status = signed; end_date = some 20260310 }

abbrev finished : BusinessReminder
finished = record {
  id = "r";
  fingerprint = some "contract-end:k";
  entity_type = on_contract;
  entity_id = "k";
  title = "Contrat C-1 arrive à son terme";
  due_at = 20260309;
  assignee = none;
  status = done;
  automatic = true;
  note = none;
  created_at = 1;
  updated_at = 2;
}

abbrev visit : Visit
visit = record { day = day; invoices = []; quotes = []; contracts = term ∷ [] }

syncs-settled_example : In finished (syncs (finished ∷ []) (visit ∷ visit ∷ []))
syncs-settled_example = syncs-settled (finished ∷ []) (visit ∷ visit ∷ []) finished refl (inl refl)

ends_soon : Due day [] [] (term ∷ []) "contract-end:k"
ends_soon = inr (inr (term, inl refl, ((inl refl, (20260310, refl, omega arith)), refl)))

sync-reminds_example :
    (has_pending "contract-end:k" (sync day [] [] [] (term ∷ [])) ≡ true)
    ⊎ (has_settled "contract-end:k" [] ≡ true)
sync-reminds_example = sync-reminds day [] [] [] (term ∷ []) "contract-end:k" ends_soon

abbrev reminder : BusinessReminder
reminder = new_reminder day (record {
  fingerprint = "contract-end:k";
  entity_type = on_contract;
  entity_id = "k";
  title = "Contrat C-1 arrive à son terme";
  date = 20260310;
})

is_reminded : In reminder (sync day [] [] [] (term ∷ []))
unfolding sync upsert_automatic
is_reminded = inl refl

sync-current_example : Due day [] [] (term ∷ []) "contract-end:k"
sync-current_example =
    sync-current day [] [] [] (term ∷ []) reminder "contract-end:k" is_reminded refl refl refl
