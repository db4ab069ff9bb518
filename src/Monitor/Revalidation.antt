-- ===== src/Monitor/Revalidation.antt =====
-- backend/app/api/v1/ws.py: who gets a socket, and how long it outlives its session.
use cerradura_magnetica.Prelude.{
  ℕ, ◌+◌, ◌≤◌, ◌<◌, ◌≡◌, refl, Bool, true, false, List, [], ◌∷◌, ◌++◌, none, arith, leb, is_none,
  Bool-cases, inl, inr, All,
}
use cerradura_magnetica.Monitor.Socket.{Wake, watch}

-- A pass whose check takes at most `lag`, where the session is dead from `died` on.
pub record IsTimely (live : ℕ → Bool) (died lag : ℕ) (w : Wake) : Type 0 where
  pub prompt : w.later ≤ w.at_time + lag
  pub dead : died ≤ w.at_time → live w.at_time ≡ false

module _ (live : ℕ → Bool) (interval died lag : ℕ) where
  -- Once a session has been dead for the interval and the time that one check takes, the next pass of the
  -- loop finds the socket closed, however often the client sends. The deadline that stands when the passes
  -- begin lies within that bound, each pass's check takes at most `lag`, and from `died` on the check
  -- says that the session is not live.
  pub dead_socket_closes :
      (next_revalidate : ℕ) (earlier : List Wake) (w : Wake)
      → next_revalidate ≤ died + lag + interval
      → All (IsTimely live died lag) earlier
      → IsTimely live died lag w
      → died + lag + interval ≤ w.at_time
      → is_none (watch live interval next_revalidate (earlier ++ w ∷ [])) ≡ false
  unfolding watch
  dead_socket_closes next [] w due timely last late =
      let dead = last.dead (omega arith) in
      let reached : leb next w.at_time ≡ true = ground arith in rw (reached, dead) (ground arith)
  dead_socket_closes next (x ∷ xs) w due timely last late = elim (Bool-cases (x.close_set)) [
    | inl set ↦ rw set refl
    | inr unset ↦ rw unset (elim (Bool-cases (leb next x.at_time)) [
      | inr early ↦ rw early (elim (Bool-cases x.client_gone) [
        | inl gone ↦ rw gone refl
        | inr here ↦ rw here (dead_socket_closes next xs w due timely.1 last late)
      ])
      | inl reached ↦ rw reached (elim (Bool-cases (live x.at_time)) [
        | inr dead ↦ rw dead refl
        | inl alive ↦ rw alive (elim (Bool-cases x.client_gone) [
          | inl gone ↦ rw gone refl
          | inr here ↦
              let prompt = timely.0.prompt in
              let dead = timely.0.dead in
              let before : x.at_time < died = ground (arith, alive, dead) in
              rw here (
                dead_socket_closes (x.later + interval) xs w (omega (arith, prompt, before))
                  timely.1 last late)
        ])
      ])
    ])
  ]

  -- The passes of a socket whose session lives, that nobody revokes and whose client stays, never end it.
  pub live_socket_stays :
      (next_revalidate : ℕ) (ws : List Wake)
      → All (λ w. (w.close_set ≡ false) × (w.client_gone ≡ false) × (live w.at_time ≡ true)) ws
      → watch live interval next_revalidate ws ≡ none
  unfolding watch
  live_socket_stays next [] h = refl
  live_socket_stays next (w ∷ ws) h =
      let (unset, here, alive) = h.0 in
      rw
        (
          unset,
          here,
          alive,
          live_socket_stays next ws h.1,
          live_socket_stays (w.later + interval) ws h.1,
        )
        (elim (Bool-cases (leb next w.at_time)) [
          | inl reached ↦ rw reached refl
          | inr early ↦ rw early refl
        ])
