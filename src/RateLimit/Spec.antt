-- ===== src/RateLimit/Spec.antt =====
-- What the limiter promises: it remembers every hit that it let through, and lets a call through while
-- fewer than the limit of the key's hits lie in the window before it. Pruning and sweeping do not show.
use mathlib.Core.List.{append-nil}
use mathlib.Core.Path.{subst, subst₂, ap₂}
use cerradura_magnetica.Prelude.{
  ℕ, ◌+◌, ◌≤◌, ◌<◌, ◌≡◌, refl, sym, ap, ◌∙◌, inl, inr, Bool, true, false, String, text_eq,
  text_eq_iff, List, [], ◌∷◌, ◌++◌, Option, none, some, arith, leb, ◌==◌, if◌then◌else◌, Bool-cases,
  length,
}
use cerradura_magnetica.RateLimit.{
  RateLimiter, in_window, drop_stale, sweep, hits_of, put_hits, record_hit, allow, new_limiter,
}

-- Every hit that was let through, oldest first.
abbrev pub History : Type 0
History = List (String × ℕ)

abbrev pub times : String → History → List ℕ
times key [] = []
times key ((k, t) ∷ h) = let rest = times key h in if text_eq key k then t ∷ rest else rest

unfoldable pub spec_allow : ℕ → ℕ → History → String → ℕ → History × Bool
spec_allow limit window h key now =
    if leb limit (length (in_window window now (times key h)))
    then (h, false)
    else (h ++ (key, now) ∷ [], true)

-- Pruning twice, the second time later, is pruning once.
prune_twice :
    (window now now' : ℕ) (ts : List ℕ)
    → now ≤ now'
    → in_window window now' (in_window window now ts) ≡ in_window window now' ts
prune_twice window now now' [] later = refl
prune_twice window now now' (t ∷ ts) later = ground (arith, prune_twice window now now' ts later)

prune-append :
    (window now : ℕ) (ts us : List ℕ)
    → in_window window now (ts ++ us) ≡ in_window window now ts ++ in_window window now us
prune-append window now [] us = refl
prune-append window now (t ∷ ts) us = ground (arith, prune-append window now ts us)

pub times-append : (key : String) (h g : History) → times key (h ++ g) ≡ times key h ++ times key g
times-append key [] g = refl
times-append key ((k, t) ∷ h) g = elim (Bool-cases (text_eq key k)) [
  | inl own ↦ rw own (ap (λ ts. t ∷ ts) (times-append key h g))
  | inr other ↦ rw other (times-append key h g)
]

-- From `now` on, the limiter's hits in any window are those of the history.
abbrev pub Agrees : RateLimiter → History → ℕ → Type 0
Agrees r h now =
    (key : String) (later : ℕ)
    → now ≤ later
    → in_window r.window later (hits_of r key) ≡ in_window r.window later (times key h)

swept_entry :
    (window now later : ℕ) (hits kept : List ℕ)
    → now ≤ later
    → in_window window now hits ≡ kept
    → in_window window later
        (elim (drop_stale window now (some hits)) [ none ↦ [] | some hits ↦ hits ])
      ≡ in_window window later hits
swept_entry window now later hits [] h e =
    rw (e, drop_stale) (ap (in_window window later) (sym e) ∙ prune_twice window now later hits h)
swept_entry window now later hits (t ∷ ts) h e = rw (e, drop_stale) refl

dropped :
    (window now later : ℕ) (o : Option (List ℕ))
    → now ≤ later
    → in_window window later (elim (drop_stale window now o) [ none ↦ [] | some hits ↦ hits ])
      ≡ in_window window later (elim o [ none ↦ [] | some hits ↦ hits ])
dropped window now later none h = refl
dropped window now later (some hits) h = swept_entry window now later hits _ h refl

sweep-Agrees :
    (r : RateLimiter) (h : History) (now : ℕ) → Agrees r h now → Agrees (sweep r now) h now
unfolding sweep
sweep-Agrees r h now agrees key later after =
    elim (Bool-cases (leb (r.last_sweep + r.window) now)) [
      | inl due ↦ rw due (dropped r.window now later (r.hits key) after ∙ agrees key later after)
      | inr early ↦ rw early (agrees key later after)
    ]

written :
    (b : Bool) (ts : List ℕ) (o : Option (List ℕ))
    → ◌≡◌ {A = List ℕ}
        (elim (if b then some ts else o) [ none ↦ [] | some hits ↦ hits ])
        (if b then ts else (elim o [ none ↦ [] | some hits ↦ hits ]))
written true ts o = refl
written false ts o = refl

hits_of-put_hits :
    (r : RateLimiter) (key k : String) (ts : List ℕ)
    → hits_of (put_hits r key ts) k ≡ (if text_eq k key then ts else hits_of r k)
hits_of-put_hits r key k ts = written (text_eq k key) ts (r.hits k)

module _ (r : RateLimiter) (h : History) (key : String) (now : ℕ) (agrees : Agrees r h now) where
  abbrev kept : List ℕ
  kept = in_window r.window now (hits_of r key)

  kept_alike : kept ≡ in_window r.window now (times key h)
  kept_alike = agrees key now (omega arith)

  refused-Agrees : Agrees (put_hits r key kept) h now
  refused-Agrees k later after = elim (Bool-cases (text_eq k key)) [
    | inr other ↦ rw (hits_of-put_hits r key k kept, other) (agrees k later after)
    | inl own ↦
        let same : k ≡ key = (text_eq_iff k key).0 own in
        rw (hits_of-put_hits r key k kept, own)
          (prune_twice r.window now later (hits_of r key) after
            ∙ agrees key later after
            ∙ ap (λ (x : String). in_window r.window later (times x h)) (sym same))
  ]

  passed-Agrees : Agrees (put_hits r key (kept ++ now ∷ [])) (h ++ (key, now) ∷ []) now
  passed-Agrees k later after = elim (Bool-cases (text_eq k key)) [
    | inr other ↦
        rw (hits_of-put_hits r key k (kept ++ now ∷ []), times-append k h ((key, now) ∷ []), other)
          (agrees k later after ∙ ap (in_window r.window later) (sym (append-nil (times k h))))
    | inl own ↦
        let same : k ≡ key = (text_eq_iff k key).0 own in
        rw (hits_of-put_hits r key k (kept ++ now ∷ []), times-append k h ((key, now) ∷ []), own)
          (prune-append r.window later kept (now ∷ [])
            ∙ ap (λ ts. ts ++ in_window r.window later (now ∷ []))
                (prune_twice r.window now later (hits_of r key) after
                  ∙ agrees key later after
                  ∙ ap (λ (x : String). in_window r.window later (times x h)) (sym same))
            ∙ sym (prune-append r.window later (times k h) (now ∷ [])))
  ]

  -- One call, against the history.
  record_hit-Agrees :
      let (r', passed) = record_hit r key now in
      let (h', passed') = spec_allow r.limit r.window h key now in
      (passed ≡ passed') × Agrees r' h' now
  unfolding record_hit spec_allow
  record_hit-Agrees = elim (Bool-cases (leb r.limit (length kept))) [
    | inl full ↦
        let full' : leb r.limit (length (in_window r.window now (times key h))) ≡ true =
          rw (← kept_alike) full in
        rw (full, full') (refl, refused-Agrees)
    | inr room ↦
        let room' : leb r.limit (length (in_window r.window now (times key h))) ≡ false =
          rw (← kept_alike) room in
        rw (room, room') (refl, passed-Agrees)
  ]

sweep_keeps :
    (r : RateLimiter) (now : ℕ)
    → ((sweep r now).limit ≡ r.limit) × ((sweep r now).window ≡ r.window)
unfolding sweep
sweep_keeps r now = ground arith

allow_keeps :
    (r : RateLimiter) (key : String) (now : ℕ)
    → ((allow r key now).0.limit ≡ r.limit) × ((allow r key now).0.window ≡ r.window)
unfolding allow record_hit
allow_keeps r key now = ground (arith, sweep_keeps r now)

-- One answer and what is remembered after it, alike.
abbrev Alike : RateLimiter × Bool → History × Bool → ℕ → Type 0
Alike x y now = (x.1 ≡ y.1) × Agrees x.0 y.0 now

allow_opened :
    (r : RateLimiter) (key : String) (now : ℕ)
    → 0 < r.limit
    → allow r key now ≡ record_hit (sweep r now) key now
unfolding allow
allow_opened r key now positive =
    let enabled : (r.limit == 0) ≡ false = ground arith in rw (enabled, allow) refl

allow_refines :
    (r : RateLimiter) (h : History) (key : String) (now : ℕ)
    → 0 < r.limit
    → Agrees r h now
    → Alike (allow r key now) (spec_allow r.limit r.window h key now) now
allow_refines r h key now positive agrees =
    let (limit, window) = sweep_keeps r now in
    subst₂ (λ l w. Alike (allow r key now) (spec_allow l w h key now) now) limit window
      (subst (λ x. Alike x (spec_allow (sweep r now).limit (sweep r now).window h key now) now)
        (sym (allow_opened r key now positive))
        (record_hit-Agrees (sweep r now) h key now (sweep-Agrees r h now agrees)))

-- The answers to a series of calls.
unfoldable pub run : RateLimiter → List (String × ℕ) → List Bool
run r [] = []
run r ((key, now) ∷ calls) = let (r', passed) = allow r key now in passed ∷ run r' calls

unfoldable pub spec_run : ℕ → ℕ → History → List (String × ℕ) → List Bool
spec_run limit window h [] = []
spec_run limit window h ((key, now) ∷ calls) =
    let (h', passed) = spec_allow limit window h key now in passed ∷ spec_run limit window h' calls

-- The clock does not go back.
abbrev pub IsAscending : ℕ → List (String × ℕ) → Type 0
IsAscending last [] = Unit
IsAscending last ((key, now) ∷ calls) = (last ≤ now) × IsAscending now calls

later-Agrees :
    (r : RateLimiter) (h : History) (last now : ℕ) → last ≤ now → Agrees r h last → Agrees r h now
later-Agrees r h last now after agrees key later l = agrees key later (omega arith)

runs_alike :
    (calls : List (String × ℕ)) (r : RateLimiter) (h : History) (last : ℕ)
    → 0 < r.limit
    → IsAscending last calls
    → Agrees r h last
    → run r calls ≡ spec_run r.limit r.window h calls
unfolding run spec_run
runs_alike [] r h last positive up agrees = refl
runs_alike ((key, now) ∷ calls) r h last positive (after, up) agrees =
    let (same, agrees') =
      allow_refines r h key now positive (later-Agrees r h last now after agrees) in
    let (limit, window) = allow_keeps r key now in
    ap₂ ◌∷◌ same (
      runs_alike calls (allow r key now).0 (spec_allow r.limit r.window h key now).0 now
        (omega (arith, limit)) up agrees'
      ∙ ap₂ (λ l w. spec_run l w (spec_allow r.limit r.window h key now).0 calls) limit window)

-- A limiter with a positive limit that is started and then called by a clock that does not go back
-- answers as the specification does, whatever it has pruned and swept in between.
pub limiter_refines :
    (limit window start : ℕ) (calls : List (String × ℕ))
    → 0 < limit
    → IsAscending start calls
    → run (new_limiter limit window start) calls ≡ spec_run limit window [] calls
unfolding new_limiter
limiter_refines limit window start calls positive up =
    runs_alike calls (new_limiter limit window start) [] start positive up (λ key later l. refl)
