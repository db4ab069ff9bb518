-- ===== src/RateLimit/Tests.antt =====
-- Two addresses under a limit of two calls a minute, with a sweep in between.
use cerradura_magnetica.Prelude.{ℕ, ◌≤◌, ◌≡◌, refl, true, false, String, List, [], ◌∷◌, arith}
use cerradura_magnetica.RateLimit.{new_limiter, allow}
use cerradura_magnetica.RateLimit.Spec.{IsAscending, times, run, spec_run, limiter_refines}
use cerradura_magnetica.RateLimit.Window.{granted, between, window_bounded}

abbrev calls : List (String × ℕ)
calls = ("a", 0) ∷ ("a", 10) ∷ ("b", 20) ∷ ("a", 30) ∷ ("a", 61) ∷ ("b", 300) ∷ []

calls-IsAscending : IsAscending 0 calls
calls-IsAscending =
    (omega arith, (omega arith, (omega arith, (omega arith, (omega arith, (omega arith, tt))))))

-- The third call of "a" finds two in its window, the fourth only one.
answers : run (new_limiter 2 60 0) calls ≡ true ∷ true ∷ true ∷ false ∷ true ∷ true ∷ []
unfolding run allow new_limiter
answers = refl

limiter_refines_example : run (new_limiter 2 60 0) calls ≡ spec_run 2 60 [] calls
limiter_refines_example = limiter_refines 2 60 0 calls (omega arith) calls-IsAscending

window_bounded_example :
    between 60 5 (times "a" (granted calls (run (new_limiter 2 60 0) calls))) ≤ 2
window_bounded_example = window_bounded 2 60 0 calls "a" 5 (omega arith) calls-IsAscending
