-- ===== src/Releases/Registry.antt =====
-- The register of releases: distinct versions, and no date for what is not released.
use nola_hq_backend.Common.{
  ℕ, ◌≡◌, ◌≢◌, refl, sym, ap, ◌∙◌, subst, true, false, ◌⊎◌, inl, inr, none, List, [], ◌∷◌, ◌==◌,
  string_eq, String, ok, In, In-append_cases, Option-cases, find-none, >>-eq-ok, beq_self,
}
use nola_hq_backend.Common.Text.{trim}
use nola_hq_backend.Releases.{
  Release, is_released, CreateReleaseDto, with_version, throw_found, new_release, create,
}

-- One release for a version: two rows of one version have one id.
abbrev pub OneForVersion : List Release → Type 0
OneForVersion releases =
    (r s : Release) → In r releases → In s releases → r.version ≡ s.version → r.id ≡ s.id

-- Only a released release has a delivery date.
abbrev pub DatedIsReleased : List Release → Type 0
DatedIsReleased releases =
    (r : Release) → In r releases → is_released r.status ≡ false → r.released_at ≡ none

no_version :
    (releases : List Release) (version : String) (r : Release)
    → throw_found (with_version releases version) ≡ ok tt
    → In r releases
    → r.version ≢ version
no_version releases version r h m e = elim (Option-cases (with_version releases version)) [
  | inl missed ↦
      let off : (r.version == version) ≡ false =
        find-none (λ (x : Release). x.version == version) releases r missed m in
      let on : (r.version == version) ≡ true = rw e (beq_self version) in cc (on, off)
  | inr (found, hit) ↦ absurd (cc (rw hit at h))
]

-- Creating a release, where it is accepted, keeps one release for each version, and a delivery date
-- only where a release is released, if both hold before.
pub create-OneForVersion :
    (releases releases' : List Release) (dto : CreateReleaseDto) (new_id : String) (now : ℕ)
    → create releases dto new_id now ≡ ok releases'
    → OneForVersion releases × DatedIsReleased releases
    → OneForVersion releases' × DatedIsReleased releases'
unfolding create
create-OneForVersion releases releases' dto new_id now h (one, dated) =
    let (free, stored) = >>-eq-ok (throw_found (with_version releases (trim dto.version))) _ h in
    let new = new_release dto new_id now in
    let none_has =
      λ (r : Release) (m : In r releases). no_version releases (trim dto.version) r free m in
    subst (λ l. OneForVersion l × DatedIsReleased l) (the stored)
      (
        λ r s mr ms e.
            pair one none_has r s (In-append_cases r releases (new ∷ []) mr)
              (In-append_cases s releases (new ∷ []) ms) e,
        λ r m off. elim (In-append_cases r releases (new ∷ []) m) [
          | inl old ↦ dated r old off
          | inr (inl e) ↦ rw e refl
          | inr (inr n) ↦ absurd n
        ],
      )
  where
    the : {a b : List Release} → ok a ≡ ok b → a ≡ b
    the h = cc

    pair :
        OneForVersion releases
        → ((r : Release) → In r releases → r.version ≢ trim dto.version)
        → (r s : Release) → In r releases ⊎ In r (new_release dto new_id now ∷ [])
        → In s releases ⊎ In s (new_release dto new_id now ∷ [])
        → r.version ≡ s.version
        → r.id ≡ s.id
    pair one none_has r s (inl a) (inl b) e = one r s a b e
    pair one none_has r s (inl a) (inr (inl b)) e =
        absurd (none_has r a (e ∙ ap (λ (x : Release). x.version) b))
    pair one none_has r s (inr (inl a)) (inl b) e =
        absurd (none_has s b (sym e ∙ ap (λ (x : Release). x.version) a))
    pair one none_has r s (inr (inl a)) (inr (inl b)) e = cc
    pair one none_has r s (inr (inr a)) m e = absurd a
    pair one none_has r s m (inr (inr b)) e = absurd b
