-- ===== src/RateLimit.antt =====
-- backend/app/core/ratelimit.py: the sliding window in memory, the fixed window in Redis, and the
-- dependency that throttles authentication. A dictionary is a function from keys; the clock is
-- monotonic and counts ticks. `t >= now - window` is written without the subtraction.
pub mod Window
pub mod Spec
pub mod Tests
use cerradura_magnetica.Prelude.{
  ℕ, ◌+◌, Bool, true, false, String, text_eq, List, [], ◌∷◌, ◌++◌, Option, none, some, leb, ◌==◌,
  if◌then◌else◌, length, select,
}

pub record RateLimiter : Type 0 where
  pub limit : ℕ
  pub window : ℕ
  pub hits : String → Option (List ℕ)
  pub last_sweep : ℕ

abbrev pub is_fresh : ℕ → ℕ → ℕ → Bool
is_fresh window now t = leb now (t + window)

-- `[t for t in hits if t >= cutoff]`
abbrev pub in_window : ℕ → ℕ → List ℕ → List ℕ
in_window window now hits = select (is_fresh window now) hits

unfoldable pub new_limiter : ℕ → ℕ → ℕ → RateLimiter
new_limiter limit window now = record {
  limit = limit;
  window = window;
  hits = λ key. none;
  last_sweep = now;
}

unfoldable pub reset : RateLimiter → ℕ → RateLimiter
reset r now = record r { hits = λ key. none; last_sweep = now }

abbrev pub drop_stale : ℕ → ℕ → Option (List ℕ) → Option (List ℕ)
drop_stale window now none = none
drop_stale window now (some hits) = elim (in_window window now hits) [
  | [] ↦ none
  | _ ∷ _ ↦ some hits
]

-- `_sweep`, and the test before it.
unfoldable pub sweep : RateLimiter → ℕ → RateLimiter
sweep r now =
    if leb (r.last_sweep + r.window) now
    then record r { hits = λ key. drop_stale r.window now (r.hits key); last_sweep = now }
    else r

-- A read of the `defaultdict`.
abbrev pub hits_of : RateLimiter → String → List ℕ
hits_of r key = elim (r.hits key) [ none ↦ [] | some hits ↦ hits ]

abbrev pub put_hits : RateLimiter → String → List ℕ → RateLimiter
put_hits r key hits = record r { hits = λ k. if text_eq k key then some hits else r.hits k }

-- From the swept limiter: the key's hits in the window, and the decision.
unfoldable pub record_hit : RateLimiter → String → ℕ → RateLimiter × Bool
record_hit r key now =
    let kept = in_window r.window now (hits_of r key) in
    if leb r.limit (length kept)
    then (put_hits r key kept, false)
    else (put_hits r key (kept ++ now ∷ []), true)

unfoldable pub allow : RateLimiter → String → ℕ → RateLimiter × Bool
unfolding sweep record_hit
allow r key now = if r.limit == 0 then (r, true) else record_hit (sweep r now) key now

-- Redis: the pipeline of INCR and EXPIRE is a parameter, with the server's state; it gives `none` where
-- it raises.
module _ {Redis : Type 0} (incr : Redis → String → ℕ → Redis × Option ℕ) where
  unfoldable pub redis_allow : ℕ → ℕ → Redis → String → Redis × Bool
  redis_allow limit window redis key =
      if limit == 0
      then (redis, true)
      else let (redis', count) = incr redis key window in
        (redis', (elim count [ none ↦ true | some c ↦ leb c limit ]))
