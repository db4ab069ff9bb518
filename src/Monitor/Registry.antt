-- ===== src/Monitor/Registry.antt =====
-- The registry of backend/app/services/events.py: every connection is filed under its own organization, so
-- that the calls that go by the dictionary's entry are those that go by the connections.
use mathlib.Core.List.{append-nil}
use cerradura_magnetica.Prelude.{
  ℕ, ◌≡◌, refl, sym, Bool, true, false, not, List, [], ◌∷◌, arith, ◌==◌, ==_iff, if◌then◌else◌,
  Bool-cases, inl, inr, select, update_rows, All, All-append, select-append, update_rows-append,
  All-select,
}
use cerradura_magnetica.Monitor.{
  Connection, entry, add_connection, discard, keep_entry, remove_connection, connections,
  signal_close, signal_all, signal_entry,
}

abbrev pub Entries : Type 0
Entries = List (ℕ × List Connection)

abbrev IsAbsent : ℕ → Entries → Type 0
IsAbsent o rest = All (λ e. (e.0 == o) ≡ false) rest

abbrev OfOrg : ℕ → List Connection → Type 0
OfOrg o conns = All (λ (c : Connection). c.org_id ≡ o) conns

-- Every organization has at most one entry, with connections of its own.
abbrev pub IsFiled : Entries → Type 0
IsFiled [] = Unit
IsFiled ((o, conns) ∷ rest) = OfOrg o conns × IsAbsent o rest × IsFiled rest

OfOrg-update_rows :
    (o : ℕ) (p : Connection → Bool) (conns : List Connection)
    → OfOrg o conns
    → OfOrg o (update_rows p signal_close conns)
OfOrg-update_rows o p [] h = h
OfOrg-update_rows o p (c ∷ cs) h = elim (Bool-cases (p c)) [
  | inl hit ↦ rw hit (h.0, OfOrg-update_rows o p cs h.1)
  | inr miss ↦ rw miss (h.0, OfOrg-update_rows o p cs h.1)
]

-- Of one organization's connections, those of an organization are all of them or none.
select-OfOrg :
    (o asked : ℕ) (conns : List Connection)
    → OfOrg o conns
    → select (λ (c : Connection). c.org_id == asked) conns ≡ (if o == asked then conns else [])
select-OfOrg o asked [] h = ground arith
select-OfOrg o asked (c ∷ cs) h =
    rw (h.0, select-OfOrg o asked cs h.1)
      (elim (Bool-cases (o == asked)) [ inl hit ↦ rw hit refl | inr miss ↦ rw miss refl ])

-- A signal to an organization reaches all of one organization's connections or none.
update_rows-OfOrg :
    (o asked : ℕ) (conns : List Connection)
    → OfOrg o conns
    → update_rows (λ (c : Connection). c.org_id == asked) signal_close conns
      ≡ (if o == asked then update_rows (λ _. true) signal_close conns else conns)
update_rows-OfOrg o asked [] h = ground arith
update_rows-OfOrg o asked (c ∷ cs) h =
    rw (h.0, update_rows-OfOrg o asked cs h.1)
      (elim (Bool-cases (o == asked)) [ inl hit ↦ rw hit refl | inr miss ↦ rw miss refl ])

select-IsAbsent :
    (o : ℕ) (rest : Entries)
    → IsFiled rest
    → IsAbsent o rest
    → select (λ (c : Connection). c.org_id == o) (connections rest) ≡ []
select-IsAbsent o [] h k = refl
select-IsAbsent o ((o2, conns) ∷ rest) h k =
    rw
      (
        select-append (λ (c : Connection). c.org_id == o) conns (connections rest),
        select-OfOrg o2 o conns h.0,
        k.0,
        select-IsAbsent o rest h.2 k.1,
      )
      refl

-- The dictionary's entry is the view by organization of the connections.
pub entry-select :
    (o : ℕ) (m : Entries)
    → IsFiled m
    → entry m o ≡ select (λ (c : Connection). c.org_id == o) (connections m)
entry-select o [] h = refl
entry-select o ((o2, conns) ∷ rest) h =
    rw
      (
        select-append (λ (c : Connection). c.org_id == o) conns (connections rest),
        select-OfOrg o2 o conns h.0,
      )
      (elim (Bool-cases (o2 == o)) [
        | inl hit ↦
            let same : o2 ≡ o = (==_iff o2 o).0 hit in
            rw (hit, select-IsAbsent o rest h.2 (rw (← same) h.1)) (sym (append-nil conns))
        | inr miss ↦ rw miss (entry-select o rest h.2)
      ])

pub connections-signal_all :
    (p : Connection → Bool) (m : Entries)
    → connections (signal_all p m) ≡ update_rows p signal_close (connections m)
connections-signal_all p [] = refl
connections-signal_all p ((o, conns) ∷ rest) =
    rw (connections-signal_all p rest, update_rows-append p signal_close conns (connections rest))
      refl

-- Under the filing, the signal to an organization is the signal to its connections.
signal_all-IsAbsent :
    (o : ℕ) (rest : Entries)
    → IsFiled rest
    → IsAbsent o rest
    → signal_all (λ (c : Connection). c.org_id == o) rest ≡ rest
signal_all-IsAbsent o [] h k = refl
signal_all-IsAbsent o ((o2, conns) ∷ rest) h k =
    rw (update_rows-OfOrg o2 o conns h.0, k.0, signal_all-IsAbsent o rest h.2 k.1) refl

pub signal_entry-eq-signal_all :
    (o : ℕ) (m : Entries)
    → IsFiled m
    → signal_entry o m ≡ signal_all (λ (c : Connection). c.org_id == o) m
signal_entry-eq-signal_all o [] h = refl
signal_entry-eq-signal_all o ((o2, conns) ∷ rest) h =
    rw (update_rows-OfOrg o2 o conns h.0) (elim (Bool-cases (o2 == o)) [
      | inl hit ↦
          let same : o2 ≡ o = (==_iff o2 o).0 hit in
          rw (hit, signal_all-IsAbsent o rest h.2 (rw (← same) h.1)) refl
      | inr miss ↦ rw (miss, signal_entry-eq-signal_all o rest h.2) refl
    ])

add_connection-IsAbsent :
    (o org : ℕ) (conn : Connection) (m : Entries)
    → (org == o) ≡ false
    → IsAbsent o m
    → IsAbsent o (add_connection m org conn)
add_connection-IsAbsent o org conn [] ne h = (ne, tt)
add_connection-IsAbsent o org conn ((o2, conns) ∷ rest) ne h = elim (Bool-cases (o2 == org)) [
  | inl hit ↦ rw hit h
  | inr miss ↦ rw miss (h.0, add_connection-IsAbsent o org conn rest ne h.1)
]

pub add_connection-IsFiled :
    (m : Entries) (conn : Connection) → IsFiled m → IsFiled (add_connection m conn.org_id conn)
add_connection-IsFiled [] conn h = ((refl, tt), tt, tt)
add_connection-IsFiled ((o, conns) ∷ rest) conn h = elim (Bool-cases (o == conn.org_id)) [
  | inl hit ↦
      let same : conn.org_id ≡ o = sym ((==_iff o conn.org_id).0 hit) in
      rw hit
        (All-append (λ (c : Connection). c.org_id ≡ o) conns (conn ∷ []) h.0 (same, tt), h.1, h.2)
  | inr miss ↦
      let other : (conn.org_id == o) ≡ false = ground (arith, miss) in
      rw miss (
        h.0,
        add_connection-IsAbsent o conn.org_id conn rest other h.1,
        add_connection-IsFiled rest conn h.2,
      )
]

keep_entry-IsFiled :
    (o : ℕ) (conns : List Connection) (rest : Entries)
    → OfOrg o conns
    → IsAbsent o rest
    → IsFiled rest
    → IsFiled (keep_entry o conns rest)
keep_entry-IsFiled o [] rest h k f = f
keep_entry-IsFiled o (c ∷ cs) rest h k f = (h, k, f)

keep_entry-IsAbsent :
    (o o2 : ℕ) (conns : List Connection) (rest : Entries)
    → (o2 == o) ≡ false
    → IsAbsent o rest
    → IsAbsent o (keep_entry o2 conns rest)
keep_entry-IsAbsent o o2 [] rest ne h = h
keep_entry-IsAbsent o o2 (c ∷ cs) rest ne h = (ne, h)

remove_connection-IsAbsent :
    (o org key : ℕ) (m : Entries) → IsAbsent o m → IsAbsent o (remove_connection m org key)
remove_connection-IsAbsent o org key [] h = h
remove_connection-IsAbsent o org key ((o2, conns) ∷ rest) h = elim (Bool-cases (o2 == org)) [
  | inl hit ↦ rw hit (keep_entry-IsAbsent o o2 (discard key conns) rest h.0 h.1)
  | inr miss ↦ rw miss (h.0, remove_connection-IsAbsent o org key rest h.1)
]

pub remove_connection-IsFiled :
    (org key : ℕ) (m : Entries) → IsFiled m → IsFiled (remove_connection m org key)
remove_connection-IsFiled org key [] h = h
remove_connection-IsFiled org key ((o, conns) ∷ rest) h = elim (Bool-cases (o == org)) [
  | inl hit ↦ rw hit (
      keep_entry-IsFiled o (discard key conns) rest
        (All-select (λ (c : Connection). c.org_id ≡ o) (λ c. not (c.key == key)) conns h.0) h.1 h.2)
  | inr miss ↦ rw miss (
    h.0,
    remove_connection-IsAbsent o org key rest h.1,
    remove_connection-IsFiled org key rest h.2,
  )
]

signal_all-keys :
    (o : ℕ) (p : Connection → Bool) (m : Entries) → IsAbsent o m → IsAbsent o (signal_all p m)
signal_all-keys o p [] h = h
signal_all-keys o p (e ∷ rest) h = (h.0, signal_all-keys o p rest h.1)

pub signal_all-IsFiled :
    (p : Connection → Bool) (m : Entries) → IsFiled m → IsFiled (signal_all p m)
signal_all-IsFiled p [] h = h
signal_all-IsFiled p ((o, conns) ∷ rest) h =
    (OfOrg-update_rows o p conns h.0, signal_all-keys o p rest h.1, signal_all-IsFiled p rest h.2)
