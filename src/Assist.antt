-- ===== src/Assist.antt =====
-- src/assist/handoff.store.ts: the codes by which an app redeems assisted access once. The `Map` is
-- the list of its entries in the order of insertion; the clock and the random code are arguments.
pub mod Redeem
use nola_hq_backend.Common.{
  ℕ, ◌+◌, Bool, true, false, not, Option, none, some, List, [], ◌∷◌, ◌++◌, map, ◌==◌, string_eq,
  filter, find, any, ltb, if◌then◌else◌, String,
}

pub data Mode : Type 0 where
  read write : Mode

pub record Handoff : Type 0 where
  pub access_token : String
  pub refresh_token : String
  pub realm : String
  pub app : String
  pub mode : Mode
  pub by : String
  pub by_name : Option String
  pub reason : String
  pub target_user_id : String
  pub expires_at : ℕ

abbrev pub ttl_ms : ℕ
ttl_ms = 60000

abbrev pub Store : Type 0
Store = List (String × Handoff)

abbrev pub is_expired : ℕ → String × Handoff → Bool
is_expired now entry = ltb entry.1.expires_at now

-- `sweep`
unfoldable pub sweep : Store → ℕ → Store
sweep store now = filter (λ entry. not (is_expired now entry)) store

-- `map.get`
abbrev pub get : Store → String → Option (String × Handoff)
get store code = find (λ (entry : String × Handoff). entry.0 == code) store

-- `map.delete`
abbrev pub delete : Store → String → Store
delete store code = filter (λ (entry : String × Handoff). not (entry.0 == code)) store

-- `map.set`: a key that is there keeps its place
unfoldable pub set : Store → String → Handoff → Store
set store code entry =
    if any (λ (e : String × Handoff). e.0 == code) store
    then map (λ (e : String × Handoff). if e.0 == code then (code, entry) else e) store
    else store ++ (code, entry) ∷ []

-- `create`, with the code that was drawn; it returns the code and the expiry of the stored entry
unfoldable pub create_handoff :
    Store → (entry : Handoff) → (code : String) → ℕ → Store × (String × ℕ)
unfolding sweep set
create_handoff store entry code now =
    let expires_at = now + ttl_ms in
    (set (sweep store now) code (record entry { expires_at = expires_at }), (code, expires_at))

-- `redeem`, with one reading of the clock
unfoldable pub redeem : Store → String → ℕ → Store × Option Handoff
unfolding sweep
redeem store code now =
    let swept = sweep store now in
    elim (get swept code) [
      | none ↦ (swept, none)
      | some found ↦ (delete swept code, if is_expired now found then none else some found.1)
    ]
