-- ===== src/RateLimit/Window.antt =====
-- The bound that the limiter is there for.
use mathlib.Core.List.{append-nil, append_assoc}
use mathlib.Core.Path.{subst}
use cerradura_magnetica.Prelude.{
  text_eq_iff, ℕ, suc, ◌+◌, ◌≤◌, ◌<◌, ◌≡◌, ap, ◌∙◌, inl, inr, Bool, false, ◌&&◌, String, text_eq,
  List, [], ◌∷◌, ◌++◌, arith, leb, if◌then◌else◌, Bool-cases, length,
}
use cerradura_magnetica.RateLimit.{in_window, new_limiter}
use cerradura_magnetica.RateLimit.Spec.{
  History, times, times-append, spec_allow, run, spec_run, IsAscending, limiter_refines,
}

-- The calls that were let through, among those that were made.
unfoldable pub granted : List (String × ℕ) → List Bool → History
granted [] answers = []
granted (c ∷ calls) [] = []
granted (c ∷ calls) (passed ∷ answers) =
    let rest = granted calls answers in if passed then c ∷ rest else rest

-- The hits of a key from `start` to the end of the window that begins there.
abbrev pub between : ℕ → ℕ → List ℕ → ℕ
between window start [] = 0
between window start (t ∷ ts) =
    let rest = between window start ts in
    if leb start t && leb t (start + window) then suc rest else rest

between-append :
    (window start : ℕ) (ts us : List ℕ)
    → between window start (ts ++ us) ≡ between window start ts + between window start us
between-append window start [] us = omega arith
between-append window start (t ∷ ts) us = ground (arith, between-append window start ts us)

-- Hits of a window that `now` lies in are all fresh at `now`.
between_fresh :
    (window start now : ℕ) (ts : List ℕ)
    → now ≤ start + window
    → between window start ts ≤ length (in_window window now ts)
between_fresh window start now [] h = omega arith
between_fresh window start now (t ∷ ts) h = ground (arith, between_fresh window start now ts h)

fits :
    (limit window start now : ℕ) (ts : List ℕ)
    → between window start ts ≤ limit
    → leb limit (length (in_window window now ts)) ≡ false
    → between window start ts + between window start (now ∷ []) ≤ limit
fits limit window start now ts h room =
    elim (Bool-cases (leb start now && leb now (start + window))) [
      | inl inside ↦ rw inside (
          let close : now ≤ start + window = ground arith in
          ground (arith, between_fresh window start now ts close))
      | inr outside ↦ rw outside (omega arith)
    ]

abbrev pub IsBounded : ℕ → ℕ → History → Type 0
IsBounded limit window h = (key : String) (start : ℕ) → between window start (times key h) ≤ limit

-- A hit that is let through fits into every window that it lies in.
added-IsBounded :
    (limit window : ℕ) (h : History) (key : String) (now : ℕ)
    → IsBounded limit window h
    → leb limit (length (in_window window now (times key h))) ≡ false
    → IsBounded limit window (h ++ (key, now) ∷ [])
added-IsBounded limit window h key now bounded room k start = elim (Bool-cases (text_eq k key)) [
  | inr other ↦
      rw (times-append k h ((key, now) ∷ []), other) (rw (append-nil (times k h)) (bounded k start))
  | inl own ↦
      let same : k ≡ key = (text_eq_iff k key).0 own in
      let room' : leb limit (length (in_window window now (times k h))) ≡ false =
        ap (λ x. leb limit (length (in_window window now (times x h)))) same ∙ room in
      rw (times-append k h ((key, now) ∷ []), own)
        (rw (between-append window start (times k h) (now ∷ []))
          (fits limit window start now (times k h) (bounded k start) room'))
]

spec_run-IsBounded :
    (calls : List (String × ℕ)) (limit window : ℕ) (h : History)
    → IsBounded limit window h
    → IsBounded limit window (h ++ granted calls (spec_run limit window h calls))
unfolding granted spec_run spec_allow
spec_run-IsBounded [] limit window h bounded = rw (append-nil h) bounded
spec_run-IsBounded ((key, now) ∷ calls) limit window h bounded =
    elim (Bool-cases (leb limit (length (in_window window now (times key h))))) [
      | inl full ↦ rw full (spec_run-IsBounded calls limit window h bounded)
      | inr room ↦ rw room (
          subst (IsBounded limit window)
            (append_assoc h ((key, now) ∷ [])
              (granted calls (spec_run limit window (h ++ (key, now) ∷ []) calls)))
            (spec_run-IsBounded calls limit window (h ++ (key, now) ∷ [])
              (added-IsBounded limit window h key now bounded room)))
    ]

-- Under a positive limit and a clock that does not go back, of the calls with one key no more than
-- the limit are let through in any stretch of time as long as the window.
pub window_bounded :
    (limit window start : ℕ) (calls : List (String × ℕ)) (key : String) (from : ℕ)
    → 0 < limit
    → IsAscending start calls
    → between window from (times key (granted calls (run (new_limiter limit window start) calls)))
      ≤ limit
window_bounded limit window start calls key from positive up =
    rw (limiter_refines limit window start calls positive up)
      (spec_run-IsBounded calls limit window [] (λ k s. omega arith) key from)
