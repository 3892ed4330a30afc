-- ===== src/Tests/Registry.antt =====
-- A register of one release, and the tickets in it.
use nola_hq_backend.Common.{
  ◌+◌, ◌≡◌, refl, ◌==◌, nat_eq, string_eq, inl, inr, none, some, [], ◌∷◌, ok, In, All, ◌⊎◌, length,
  arith, count_if,
}
use nola_hq_backend.WorkItems.Types.{WorkItem, WorkItemStatus, resolved, closed, status_eq}
use nola_hq_backend.Releases.{
  Release, released, CreateReleaseDto, UpdateReleaseDto, create, new_release, updated_release,
  update, ReleaseContents, contents, contents_of, rows_of, counts_by_release, remove, cascade,
  put_release, descendants_of, descend, take_new,
}
use nola_hq_backend.Releases.Registry.{OneForVersion, DatedIsReleased, create-OneForVersion}
use nola_hq_backend.Releases.Delivered.{Dated, created, updated, ended, next, RegisterSteps-Dated}
use nola_hq_backend.Releases.Contents.{
  contents-total, counts_by_release-contents, IsReferential, remove-IsReferential,
}
use nola_hq_backend.Releases.Cascade.{Moved, cascade-rows}
use nola_hq_backend.Tests.Items.{big, middle, small, three}

abbrev dto : CreateReleaseDto
dto = record { version = "1.4"; name = none; status = none; target_date = none; notes = none }

abbrev release : Release
release = new_release dto "r" 3

is_created : create [] dto "r" 3 ≡ ok (release ∷ [])
unfolding create
is_created = refl

create-OneForVersion_example : OneForVersion (release ∷ []) × DatedIsReleased (release ∷ [])
create-OneForVersion_example =
    create-OneForVersion [] (release ∷ []) dto "r" 3 is_created
      (λ r s m n e. absurd m, λ r m off. absurd m)

abbrev delivery : UpdateReleaseDto
delivery = record {
  version = none;
  name = none;
  status = some released;
  target_date = none;
  notes = none;
}

abbrev delivered : Release
delivered = updated_release release delivery 8

is_delivered : update (release ∷ []) "r" delivery 8 ≡ ok (delivered ∷ [])
unfolding update
is_delivered = refl

RegisterSteps-Dated_example : All (λ (r : Release). Dated (8 ∷ []) r ⊎ In r.id []) (delivered ∷ [])
RegisterSteps-Dated_example =
    RegisterSteps-Dated [] (delivered ∷ []) []
      (next (created dto "r" 3 is_created) (next (updated "r" delivery 8 is_delivered) ended)) tt

abbrev held : ReleaseContents
held = contents_of (rows_of three "r") release

held_lem : contents (release ∷ []) three "r" ≡ ok held
unfolding contents
held_lem = refl

contents-total_example :
    (held.total ≡ length (rows_of three "r"))
    × ((s : WorkItemStatus)
        → held.by_status s ≡ count_if (λ (r : WorkItem). r.status == s) (rows_of three "r"))
    × (held.remaining + held.by_status resolved + held.by_status closed ≡ held.total)
contents-total_example = contents-total (release ∷ []) three "r" held held_lem

counts_by_release-contents_example : counts_by_release three "r" ≡ 2
counts_by_release-contents_example =
    counts_by_release-contents (release ∷ []) three "r" held (λ e. cc) held_lem

removed : remove (release ∷ []) (small ∷ []) "r" ≡ ok []
unfolding remove
removed = refl

none_filed : IsReferential (release ∷ []) (small ∷ [])
none_filed i r (inl q) e = ground arith
none_filed i r (inr q) e = absurd q

remove-IsReferential_example : IsReferential [] (small ∷ [])
remove-IsReferential_example =
    remove-IsReferential (release ∷ []) [] (small ∷ []) "r" removed none_filed

middle_moves : In (put_release none 9 middle) (cascade three big none 9).0
unfolding cascade descendants_of descend take_new
middle_moves = inr (inl refl)

cascade-rows_example :
    (row : WorkItem) × In row three × Moved three big none 9 row (put_release none 9 middle)
cascade-rows_example =
    cascade-rows three big none 9 (refl, (refl, (refl, tt))) (inl refl) (put_release none 9 middle)
      middle_moves
