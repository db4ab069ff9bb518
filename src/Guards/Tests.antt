-- ===== src/Guards/Tests.antt =====
-- An operator of organization 10 asks for it by name.
use cerradura_magnetica.Prelude.{◌≡◌, refl, true, some, ok, Option, ℕ}
use cerradura_magnetica.Models.Auth.{User, operator}
use cerradura_magnetica.Guards.{get_org_id}

abbrev clerk : User
clerk = record { id = 7; organization_id = some 10; role = operator; is_active = true }

abbrev asked : Option ℕ
asked = some 10

clerk_works : get_org_id clerk asked ≡ ok 10
unfolding get_org_id
clerk_works = refl
