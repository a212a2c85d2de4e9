-- ===== src/Users/Status/Revocation.antt =====
-- What a suspension and a deactivation take away.
use ewu_taks.Base.{ℕ, List, some, Bool, false, ◌||◌, ==_iff, ◌≡◌, ◌≢◌, arith, ok, >>=-returned}
use ewu_taks.Domain.{User, status_beq, active, suspended}
use ewu_taks.Users.Store.{
  Tables, Db, find_unique, update_where, suspend_user_in_tx, deactivate_user_in_tx,
  delete_credential_artifacts, delete_sessions,
}
use ewu_taks.Users.Status.{Actor, RoleRow, suspend, deactivate, guarded, get_user_or_fail}
use ewu_taks.Users.Status.Transitions.{guarded-ok, update_where-Written, sessions_now-update_where}

-- The user can no longer act: no session is left, the row is not active and its credentials are
-- off; each other user has as many sessions as before.
pub record LockedOut (tables : Tables) (db db' : Db tables) (id : ℕ) : Type 0 where
  pub no_sessions : tables.sessions.count db'.sessions_now id ≡ 0
  pub other_sessions :
      (j : ℕ)
      → id ≢ j
      → tables.sessions.count db'.sessions_now j ≡ tables.sessions.count db.sessions_now j
  pub user : User
  pub row : find_unique tables db' id ≡ some user
  pub is_off : user.status ≢ active
  pub no_credentials : user.is_credential_enabled ≡ false

module _ (tables : Tables) (find_roles : List ℕ → List RoleRow) (seen db db' : Db tables)
    (now id : ℕ) (actor : Actor) where
  -- A write of a row that is neither active nor has credentials, and then the end of the sessions.
  LockedOut-Written :
      (p : User → Bool) (f : User → User) (start written : Db tables)
      → ((u : User) → (f u).status ≢ active)
      → ((u : User) → (f u).is_credential_enabled ≡ false)
      → ((u : User) → (f u).is_deleted ≡ u.is_deleted)
      → start.sessions_now ≡ db.sessions_now
      → update_where tables start id p f ≡ some written
      → delete_sessions tables written id ≡ db'
      → LockedOut tables db db' id
  unfolding delete_sessions find_unique
  LockedOut-Written p f start written off no_credentials kept_alive same w last =
      let r = update_where-Written tables start written id p f w in
      let kept = sessions_now-update_where tables start written id p f w in
      record {
        no_sessions = rw (← last) (
            ground
              (arith, tables.sessions.count-delete_all written.sessions_now id id, ==_iff id id));
        other_sessions = λ j ne. rw (← last) (
            ground (
              arith,
              tables.sessions.count-delete_all written.sessions_now id j,
              ==_iff id j,
              kept,
              same,
            ));
        user = f r.old;
        row = rw (← last) (ground (arith, r.row, r.alive, kept_alive r.old));
        is_off = off r.old;
        no_credentials = no_credentials r.old;
      }

  -- After a suspension that returns the user has no session and is found with a status that is not
  -- active and with its credentials off; each other user has as many sessions as before.
  pub suspend-LockedOut :
      suspend tables find_roles seen db now id actor ≡ ok db' → LockedOut tables db db' id
  unfolding suspend suspend_user_in_tx delete_credential_artifacts
  suspend-LockedOut h =
      let (u, checked, rest) =
        >>=-returned (get_user_or_fail tables find_roles seen id (λ st. status_beq st active)) _
          h in
      let (written, done, last) = >>=-returned (guarded _) _ rest in
      LockedOut-Written _ _ _ written (λ u h. ground arith) (λ u. ground arith) (λ u. ground arith)
        (ground arith) (guarded-ok tables _ written done) (ground arith)

  -- After a deactivation that returns the user has no session and is found with a status that is
  -- not active and with its credentials off; each other user has as many sessions as before.
  pub deactivate-LockedOut :
      deactivate tables find_roles seen db now id actor ≡ ok db' → LockedOut tables db db' id
  unfolding deactivate deactivate_user_in_tx delete_credential_artifacts
  deactivate-LockedOut h =
      let (u, checked, rest) =
        >>=-returned
          (get_user_or_fail tables find_roles seen id
            (λ st. status_beq st active || status_beq st suspended))
          _ h in
      let (written, done, last) = >>=-returned (guarded _) _ rest in
      LockedOut-Written _ _ _ written (λ u h. ground arith) (λ u. ground arith) (λ u. ground arith)
        (ground arith) (guarded-ok tables _ written done) (ground arith)
