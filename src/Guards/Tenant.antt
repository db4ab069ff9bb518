-- ===== src/Guards/Tenant.antt =====
-- No request of an ordinary user reaches another organization.
use cerradura_magnetica.Prelude.{
  ℕ, ◌≡◌, ◌⊎◌, inl, inr, refl, ap, ◌∙◌, true, false, not, Option, none, some, Result, ok, err, ◌==◌,
  ==_iff, if◌then◌else◌, holds, Bool-cases,
}
use cerradura_magnetica.Models.Auth.{User, super_admin}
use cerradura_magnetica.Guards.{
  AuthError, organization_required, role_eq, get_org_id, no_organization, other_organization,
}

chosen :
    (own asked : Option ℕ) (org : ℕ)
    → let ending : Result AuthError ℕ = elim asked [
      | some id ↦ ok id
      | none ↦ elim own [ some o ↦ ok o | none ↦ err organization_required ]
    ] in
      ending ≡ ok org → (asked ≡ some org) ⊎ ((asked ≡ none) × (own ≡ some org))
chosen own (some id) org h = let same : id ≡ org = cc in inl (ap some same)
chosen (some o) none org h = let same : o ≡ org = cc in inr (refl, ap some same)
chosen none none org h = cc

own_org :
    (own : Option ℕ) (asked : Option ℕ) (org : ℕ)
    → let ending : Result AuthError ℕ = elim own [
      | none ↦ err no_organization
      | some o ↦ if holds asked (λ id. not (id == o)) then err other_organization else ok o
    ] in
      ending ≡ ok org → (own ≡ some org) × ((asked ≡ none) ⊎ (asked ≡ some org))
own_org none asked org h = cc
own_org (some o) none org h = let same : o ≡ org = cc in (ap some same, inl refl)
own_org (some o) (some id) org h = elim (Bool-cases (id == o)) [
  | inr other ↦ let h1 = rw other at h in cc
  | inl own ↦
      let h1 : ok o ≡ ok org = rw own at h in
      let same : o ≡ org = cc in (ap some same, inr (ap some ((==_iff id o).0 own ∙ same)))
]

-- Whatever organization a request asks for, if its user is no super admin and the request goes through,
-- it works on the user's own organization, which is also the one that it asked for, if any. A super
-- admin gets the organization that was asked for, and without one the user's own.
pub get_org_id_scoped :
    (user : User) (asked : Option ℕ) (org : ℕ)
    → get_org_id user asked ≡ ok org
    → ((role_eq user.role super_admin ≡ false)
        × (user.organization_id ≡ some org)
        × ((asked ≡ none) ⊎ (asked ≡ some org)))
      ⊎ ((role_eq user.role super_admin ≡ true)
          × ((asked ≡ some org) ⊎ ((asked ≡ none) × (user.organization_id ≡ some org))))
unfolding get_org_id
get_org_id_scoped user asked org h = elim (Bool-cases (role_eq user.role super_admin)) [
  | inl above ↦ inr (above, chosen user.organization_id asked org (rw (above, get_org_id) at h))
  | inr ordinary ↦
      let (own, same) = own_org user.organization_id asked org (rw (ordinary, get_org_id) at h) in
      inl (ordinary, own, same)
]
