-- ===== src/Common/Excepted.antt =====
-- A predicate on the rows of a table, but for those with some keys.
use mathlib.Core.Path.{◌≡◌}
use mathlib.Core.Logic.{◌⊎◌, inl, inr}
use mathlib.Core.List.{List, [], ◌∷◌, ◌++◌, append_assoc, append-nil}
use nola_hq_backend.Common.Lists.{In, In-append_right, All}

module _ {A K : Type 0} (P : A → Type 0) (key : A → K) where
  abbrev pub ButFor : List K → A → Type 0
  ButFor keys a = P a ⊎ In (key a) keys

  -- More keys make the predicate weaker.
  pub All-more :
      (more keys : List K) (rows : List A)
      → All (ButFor keys) rows
      → All (ButFor (more ++ keys)) rows
  All-more more keys [] all = tt
  All-more more keys (a ∷ rows) (inl p, others) = (inl p, All-more more keys rows others)
  All-more more keys (a ∷ rows) (inr m, others) =
      (inr (In-append_right (key a) more keys m), All-more more keys rows others)

  pub All-without : (rows : List A) → All P rows → All (ButFor []) rows
  All-without [] all = tt
  All-without (a ∷ rows) (p, others) = (inl p, All-without rows others)

  -- A row that is written in place of one with its key.
  pub carried :
      (keys : List K) (old new : A)
      → key new ≡ key old
      → (P old → P new)
      → ButFor keys old
      → ButFor keys new
  carried keys old new same kept (inl p) = inl (kept p)
  carried keys old new same kept (inr m) = inr (rw same m)

  -- The keys of a first step and of the later ones.
  pub All-chained :
      (later first keys : List K) (rows : List A)
      → All (ButFor (later ++ (first ++ keys))) rows
      → All (ButFor ((later ++ first) ++ keys)) rows
  All-chained later first keys rows all = rw (append_assoc later first keys) all

  pub All-only :
      (keys : List K) (rows : List A) → All (ButFor (keys ++ [])) rows → All (ButFor keys) rows
  All-only keys rows all = rw (append-nil keys) at all
