-- ===== src/Account/Replay.antt =====
-- backend/app/api/v1/auth.py: a refresh token that comes back to the endpoint after it was exchanged.
use cerradura_magnetica.Prelude.{
  ℕ, ◌≤◌, ◌≡◌, refl, ap, subst, ◌∙◌, Bool, true, false, String, text_eq, text_eq_iff, List, [], ◌∷◌,
  ◌++◌, Option, none, some, ok, err, if◌then◌else◌, Result-cases, inl, inr, find_row-holds,
}
use cerradura_magnetica.Models.Gateway.{word}
use cerradura_magnetica.Models.Auth.{AuthSession}
use cerradura_magnetica.Sessions.{Db, SessionError, AccessClaims, get_session}
use cerradura_magnetica.Sessions.Rotation.{rotate_refresh}
use cerradura_magnetica.Sessions.Death.{FamilyRevoked, IsDead}
use cerradura_magnetica.Sessions.Reuse.{replay_kills}
use cerradura_magnetica.Guards.{TokenPayload}
use cerradura_magnetica.Login.{given}
use cerradura_magnetica.Monitor.{close_session}
use cerradura_magnetica.Monitor.Calls.{AllSignalled, signal_all-AllSignalled}
use cerradura_magnetica.Monitor.Bus.{revoke_session}
use cerradura_magnetica.Account.{
  Details, Worker, Answer, AuditLog, cleared, renewed, rejected, with_db, tear_down,
  session_resource, refresh_session, refresh, record_audit,
}

-- The token of the request, and the session that it names.
pub record Carries (decode_token : String → Option TokenPayload) (body cookie : Option String)
    (presented : String) (payload : TokenPayload) (session_id : String) : Type 0 where
  pub shown : (if given body then body else cookie) ≡ some presented
  pub filled : text_eq presented "" ≡ false
  pub decoded : decode_token presented ≡ some payload
  pub bound : payload.sid ≡ some session_id
  pub named : text_eq session_id "" ≡ false

module _ (enabled reachable : Bool) (hash_token : String → String)
    (decode_token : String → Option TokenPayload) where
  refresh-eq-refresh_session :
      (seen : Db) (w : Worker) (body cookie : Option String) (fresh : String) (checked now : ℕ)
      (presented : String) (payload : TokenPayload) (session_id : String)
      → Carries decode_token body cookie presented payload session_id
      → refresh enabled reachable hash_token decode_token seen w body cookie fresh checked now
        ≡ refresh_session enabled reachable hash_token decode_token seen w presented payload
            session_id fresh checked now
  unfolding refresh
  refresh-eq-refresh_session seen w body cookie fresh checked now presented payload session_id c =
      rw (c.shown, refresh, c.filled, c.decoded, c.bound, c.named) refl

  refresh_session-eq-ok :
      (w w1 : Worker) (presented : String) (payload : TokenPayload) (session_id fresh : String)
      (checked now : ℕ) (out : AccessClaims × String)
      → refresh_session enabled reachable hash_token decode_token w.state.db w presented payload
          session_id fresh checked now
        ≡ (w1, (renewed, ok out))
      → rotate_refresh hash_token w.state.db w.state.db session_id presented payload.sub fresh
          checked now
        ≡ (w1.state.db, ok out)
  unfolding refresh_session
  refresh_session-eq-ok w w1 presented payload session_id fresh checked now out h =
      let r =
        rotate_refresh hash_token w.state.db w.state.db session_id presented payload.sub fresh
          checked now in
      elim (Result-cases r.1) [
        | inr (e, bad) ↦
            let h1 : ◌≡◌ {A = Answer (AccessClaims × String)}
                (tear_down enabled reachable (with_db w r.0) e, (cleared, err (rejected e)))
                (w1, (renewed, ok out)) =
              rw (bad, refresh_session) at h in
            cc
        | inl (tokens, good) ↦
            let h1 : ◌≡◌ {A = Answer (AccessClaims × String)} (with_db w r.0, (renewed, ok tokens))
                (w1, (renewed, ok out)) =
              rw (good, refresh_session) at h in
            let same : tokens ≡ out = cc in
            let result : r.1 ≡ ok out = good ∙ ap ok same in
            let left : r.0 ≡ w1.state.db =
              ap (λ (x : Answer (AccessClaims × String)). x.0.state.db) h1 in
            subst (λ x. r ≡ (x, ok out)) left (subst (λ y. r ≡ (r.0, y)) result refl)
      ]

  refresh_session-eq-err :
      (w : Worker) (presented : String) (payload : TokenPayload) (session_id fresh : String)
      (checked now : ℕ) (e : SessionError)
      → let r =
          rotate_refresh hash_token w.state.db w.state.db session_id presented payload.sub fresh
            checked now in
        r.1 ≡ err e
        → refresh_session enabled reachable hash_token decode_token w.state.db w presented payload
            session_id fresh checked now
          ≡ (tear_down enabled reachable (with_db w r.0) e, (cleared, err (rejected e)))
  unfolding refresh_session
  refresh_session-eq-err w presented payload session_id fresh checked now e h =
      rw (h, refresh_session) refl

  -- The row that `refresh` writes of a replay.
  abbrev pub replay_row : SessionError → String → AuditLog
  replay_row e session_id = record {
    organization_id = e.organization_id;
    user_id = none;
    action = "refresh_reuse_detected";
    resource = session_resource session_id;
    details = some (("reason", word "refresh_reuse") ∷ []);
  }

  -- What a replayed refresh leaves: the session, its refresh tokens, its sockets and the audit trail.
  pub record IsShutDown (before after : Worker) (session_id : String) (session : ℕ) : Type 0 where
    pub dead : IsDead session_id after.state.db
    pub family : FamilyRevoked session after.state.db
    pub sockets : AllSignalled (λ c. text_eq c.session_id session_id) after.manager
    pub logged : (e : SessionError) × (after.audit ≡ before.audit ++ replay_row e session_id ∷ [])

  record_audit-nobody :
      (log : List AuditLog) (action session_id : String) (organization_id : Option ℕ)
      (details : Option Details)
      → record_audit log none action (session_resource session_id) organization_id details
        ≡ log
          ++ record {
            organization_id = organization_id;
            user_id = none;
            action = action;
            resource = session_resource session_id;
            details = details;
          }
            ∷ []
  unfolding record_audit
  record_audit-nobody log action session_id none details = refl
  record_audit-nobody log action session_id (some id) details = refl

  tear_down-IsShutDown :
      (before w : Worker) (e : SessionError) (session_id : String) (session : ℕ)
      → w.audit ≡ before.audit
      → e.reuse ≡ true
      → e.session_id ≡ some session_id
      → IsDead session_id w.state.db
      → FamilyRevoked session w.state.db
      → IsShutDown before (tear_down enabled reachable w e) session_id session
  unfolding tear_down revoke_session close_session record_audit
  tear_down-IsShutDown before w e session_id session same reuse named dead family =
      let row =
        record_audit-nobody w.audit "refresh_reuse_detected" session_id e.organization_id
          (some (("reason", word "refresh_reuse") ∷ [])) in
      rw (named, tear_down, reuse)
        (record {
          dead = dead;
          family = family;
          sockets = signal_all-AllSignalled _ w.manager.by_org;
          logged = (e, row ∙ ap (λ t. t ++ replay_row e session_id ∷ []) same);
        })

  -- A refresh token that the endpoint has exchanged comes back to it, as the next call that runs and before
  -- its session expires: the answer is the refusal and clears the cookies, the session is dead, all its
  -- refresh tokens are revoked, its sockets in that worker have their close flag set, and the audit trail
  -- has one row more, which names the session and not the token.
  pub refresh_replay :
      (w w1 : Worker) (body cookie : Option String) (presented : String) (payload : TokenPayload)
      (session_id fresh fresh' : String) (checked now checked' now' : ℕ)
      (out : AccessClaims × String) (s : AuthSession)
      → Carries decode_token body cookie presented payload session_id
      → get_session w.state.db session_id ≡ some s
      → refresh enabled reachable hash_token decode_token w.state.db w body cookie fresh checked now
        ≡ (w1, (renewed, ok out))
      → checked' ≤ s.expires_at
      → let r =
          refresh enabled reachable hash_token decode_token w1.state.db w1 body cookie fresh'
            checked' now' in
        ((e : SessionError) × (r.1 ≡ (cleared, err (rejected e))))
        × IsShutDown w1 r.0 session_id s.id
  refresh_replay w w1 body cookie presented payload session_id fresh fresh' checked now checked'
        now' out s c found first timely =
      let first' =
        subst (λ x. x ≡ (w1, (renewed, ok out)))
          (refresh-eq-refresh_session w.state.db w body cookie fresh checked now presented payload
            session_id c)
          first in
      let rotated =
        refresh_session-eq-ok w w1 presented payload session_id fresh checked now out first' in
      let ((e, bad, reuse, which), family, dead) =
        replay_kills hash_token w.state.db w1.state.db session_id presented fresh fresh' payload.sub
          checked now checked' now' out s found rotated timely in
      let named : s.session_id ≡ session_id = (text_eq_iff s.session_id session_id).0 (
        find_row-holds (λ (x : AuthSession). text_eq x.session_id session_id) w.state.db.sessions
          found) in
      let db' =
        (rotate_refresh hash_token w1.state.db w1.state.db session_id presented payload.sub fresh'
          checked' now').0 in
      rw
        (
          refresh-eq-refresh_session w1.state.db w1 body cookie fresh' checked' now' presented
              payload session_id c,
          refresh_session-eq-err w1 presented payload session_id fresh' checked' now' e bad,
        )
        (
          (e, refl),
          tear_down-IsShutDown w1 (with_db w1 db') e session_id s.id refl reuse
              (which ∙ ap some named) dead family,
        )
