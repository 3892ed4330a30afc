-- ===== src/Assist/Redeem.antt =====
-- A code is redeemed once, and not after its time.
use nola_hq_backend.Common.{
  ℕ, ◌+◌, ◌≤◌, ◌≡◌, refl, ap, subst, Bool, true, false, not, inl, inr, none, some, [], ◌∷◌, ◌++◌,
  ◌==◌, string_eq, filter, any, if◌then◌else◌, String, arith, Bool-cases, Option-cases, find_sound,
  In, In-filter, beq_self, beq→eq,
}
use nola_hq_backend.Assist.{
  Store, Handoff, get, delete, sweep, set, create_handoff, redeem, ttl_ms, is_expired,
}

get-filter :
    (keep : String × Handoff → Bool) (store : Store) (code : String)
    → get store code ≡ none
    → get (filter keep store) code ≡ none
get-filter keep [] code h = refl
get-filter keep (e ∷ store) code h = ground (arith, get-filter keep store code)

get-delete : (store : Store) (code : String) → get (delete store code) code ≡ none
get-delete [] code = refl
get-delete (e ∷ store) code = ground (arith, get-delete store code)

-- The entry that is added last is found, if it is kept and its code is not there before it.
get-last :
    (keep : String × Handoff → Bool) (store : Store) (code : String) (entry : Handoff)
    → get store code ≡ none
    → keep (code, entry) ≡ true
    → get (filter keep (store ++ (code, entry) ∷ [])) code ≡ some (code, entry)
get-last keep [] code entry h kept = rw (kept, beq_self code) refl
get-last keep (e ∷ store) code entry h kept = elim (Bool-cases (e.0 == code)) [
  | inl here ↦ absurd (cc (rw here at h))
  | inr other ↦
      let rest = get-last keep store code entry (rw other at h) kept in
      elim (Bool-cases (keep e)) [ inl stays ↦ rw (stays, other) rest | inr goes ↦ rw goes rest ]
]

any-none :
    (store : Store) (code : String)
    → get store code ≡ none
    → any (λ (e : String × Handoff). e.0 == code) store ≡ false
any-none [] code h = refl
any-none (e ∷ store) code h = ground (arith, any-none store code)

redeem-absent :
    (store : Store) (code : String) (now : ℕ)
    → get store code ≡ none
    → (redeem store code now).1 ≡ none
unfolding redeem sweep
redeem-absent store code now h =
    rw (get-filter (λ e. not (is_expired now e)) store code h, redeem) refl

after-absent : (store : Store) (code : String) (now : ℕ) → get (redeem store code now).0 code ≡ none
unfolding redeem sweep
after-absent store code now = elim (Option-cases (get (sweep store now) code)) [
  | inl missed ↦ rw (missed, redeem) missed
  | inr (found, hit) ↦ rw (hit, redeem) (get-delete (sweep store now) code)
]

some_of : (a b : Handoff) → some a ≡ some b → a ≡ b
some_of a b h = cc

given :
    (store : Store) (code : String) (now : ℕ) (entry : Handoff)
    → (redeem store code now).1 ≡ some entry
    → In (code, entry) store × (now ≤ entry.expires_at)
unfolding redeem sweep
given store code now entry h = elim (Option-cases (get (sweep store now) code)) [
  | inl missed ↦ absurd (cc (rw (missed, redeem) at h))
  | inr (found, hit) ↦
      let (swept, same) =
        find_sound (λ (e : String × Handoff). e.0 == code) (sweep store now) hit in
      let (there, fresh) = In-filter (λ e. not (is_expired now e)) found store swept in
      let live : is_expired now found ≡ false = ground arith in
      let e : (if is_expired now found then none else some found.1) ≡ some entry =
        rw (hit, redeem) at h in
      let value : found.1 ≡ entry = some_of found.1 entry (rw live at e) in
      let code_is : found.0 ≡ code = beq→eq found.0 code same in
      let whole : found ≡ (code, entry) =
        subst (λ c. found ≡ (c, entry)) code_is (ap (λ v. (found.0, v)) value) in
      (
        subst (λ (x : String × Handoff). In x store) whole there,
        subst (λ (v : Handoff). now ≤ v.expires_at) value (ground arith),
      )
]

-- A redemption that gives an entry gives one stored under the code that has not expired, and after
-- any redemption of a code no later one of it gives anything, until it is created again.
pub redeem-once :
    (store : Store) (code : String) (now later : ℕ)
    → ((entry : Handoff)
        → (redeem store code now).1 ≡ some entry
        → In (code, entry) store × (now ≤ entry.expires_at))
      × ((redeem (redeem store code now).0 code later).1 ≡ none)
unfolding redeem sweep
redeem-once store code now later = (
  given store code now,
  redeem-absent (redeem store code now).0 code later (after-absent store code now),
)

-- A code that is created is redeemed for its entry, at any time up to sixty seconds later, if it is
-- not in the store yet.
pub create_handoff-redeem :
    (store : Store) (entry : Handoff) (code : String) (now later : ℕ)
    → get store code ≡ none
    → now ≤ later
    → later ≤ now + ttl_ms
    → (redeem (create_handoff store entry code now).0 code later).1
      ≡ some (record entry { expires_at = now + ttl_ms })
unfolding redeem create_handoff sweep set
create_handoff-redeem store entry code now later fresh after before =
    let swept = get-filter (λ e. not (is_expired now e)) store code fresh in
    let stored : Handoff = record entry { expires_at = now + ttl_ms } in
    let alive : is_expired later (code, stored) ≡ false = ground arith in
    let hit =
      get-last (λ e. not (is_expired later e)) (sweep store now) code stored swept
        (rw alive refl) in
    rw (any-none (sweep store now) code swept, redeem) (rw hit (rw alive refl))
