-- ===== src/Api/People/Tests.antt =====
-- Two organizations with a department and an access level each, and a cardholder in the first.
use cerradura_magnetica.Prelude.{ℕ, ◌≡◌, refl, Bool, true, List, [], ◌∷◌, Option, none, some, err}
use cerradura_magnetica.Models.Access.{AccessLevel}
use cerradura_magnetica.Api.{not_found, get_or_404}
use cerradura_magnetica.Api.People.{
  Holder, Roster, missing, levels_not_found, not_null_violation, CardholderCreate, CardholderUpdate,
  resolve_access_levels, check_owned, create_cardholder, update_levels, update_cardholder,
  delete_cardholder,
}
use cerradura_magnetica.Api.People.Tenant.{IsScoped}
use cerradura_magnetica.Api.People.Isolation.{
  Request, creates, updates, deletes, handle, handle_all, handle_all-IsScoped,
}

abbrev level : ℕ → ℕ → List ℕ → AccessLevel
level id org_id holders = record {
  id = id;
  organization_id = org_id;
  cardholder_ids = holders;
  door_rules = [];
}

abbrev ana : Holder
ana = record {
  id = 1;
  organization_id = 1;
  department_id = some 10;
  shift_id = none;
  valid_from = none;
  valid_to = none;
  is_active = true;
}

abbrev people : Roster
people = record {
  departments =
      record { id = 10; organization_id = 1; name = 65 ∷ [] }
      ∷ record { id = 20; organization_id = 2; name = 66 ∷ [] }
      ∷ [];
  shifts = [];
  levels = level 5 1 (1 ∷ []) ∷ level 6 2 [] ∷ level 7 1 [] ∷ [];
  holders = ana ∷ [];
  next_holder = 2;
}

abbrev body : Option ℕ → List ℕ → CardholderCreate
body department ids = record {
  department_id = department;
  shift_id = none;
  valid_from = none;
  valid_to = none;
  is_active = true;
  access_level_ids = ids;
}

abbrev change : Option (Option Bool) → Option (List ℕ) → CardholderUpdate
change active ids = record {
  department_id = some none;
  shift_id = none;
  valid_from = none;
  valid_to = none;
  is_active = active;
  access_level_ids = some ids;
}

-- The other organization's department and its level are not found.
other_department :
    create_cardholder people (body (some 20) []) 1 ≡ (people, err (missing not_found))
unfolding create_cardholder check_owned get_or_404
other_department = refl

other_level :
    create_cardholder people (body none (5 ∷ 6 ∷ 5 ∷ [])) 1 ≡ (people, err levels_not_found)
unfolding create_cardholder check_owned resolve_access_levels get_or_404
other_level = refl

no_null : update_cardholder people 1 (change (some none) none) 1 ≡ (people, err not_null_violation)
unfolding update_cardholder check_owned update_levels get_or_404
no_null = refl

-- A level that is named twice counts once, and the cardholder moves to it.
moved :
    (update_cardholder people 1 (change none (some (7 ∷ 7 ∷ []))) 1).0.levels
    ≡ level 5 1 [] ∷ level 6 2 [] ∷ level 7 1 (1 ∷ []) ∷ []
unfolding update_cardholder check_owned update_levels resolve_access_levels get_or_404
moved = refl

abbrev requests : List (ℕ × Request)
requests =
    (1, creates (body (some 10) (5 ∷ 7 ∷ [])))
    ∷ (2, creates (body (some 20) (6 ∷ [])))
    ∷ (1, updates 1 (change none (some (7 ∷ []))))
    ∷ (2, deletes 1)
    ∷ (1, deletes 2)
    ∷ []

held_after :
    (handle_all people requests).levels
    ≡ level 5 1 [] ∷ level 6 2 (3 ∷ []) ∷ level 7 1 (1 ∷ []) ∷ []
unfolding handle_all handle create_cardholder update_cardholder delete_cardholder check_owned
    update_levels resolve_access_levels get_or_404
held_after = refl

handle_all-IsScoped_example : IsScoped (handle_all people requests)
handle_all-IsScoped_example =
    handle_all-IsScoped people requests
      (record { placed = ((refl, refl), tt); held = ((refl, tt), (tt, (tt, tt))) })
