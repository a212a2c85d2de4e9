-- ===== src/Users/Status/Transitions.antt =====
-- Which changes of status the methods make, whatever other requests do between their check and
-- their transaction.
use ewu_taks.Base.{
  ℕ, List, Option, none, some, Bool, true, false, ◌&&◌, ◌||◌, Text, ==_iff, ◌≡◌, ◌≢◌, arith, Result,
  ok, Option-cases, inl, inr,
}
use ewu_taks.Domain.{
  User, UserStatus, status_beq, status_beq_lem, pending, active, suspended, inactive, rejected,
}
use ewu_taks.Users.Store.{
  Tables, Db, update_where, with_status, ActivateData, activate_with_role, activated,
}
use ewu_taks.Users.Status.{
  StatusError, Actor, RolesDto, RoleRow, approve, reject, unreject, suspend, unsuspend, reactivate,
  deactivate, guarded,
}

-- The users table after a write of one row whose condition held.
pub record Written (tables : Tables) (db db' : Db tables) (id : ℕ) (p : User → Bool)
    (f : User → User) : Type 0 where
  pub old : User
  pub found : tables.users.find db.users_now id ≡ some old
  pub alive : old.is_deleted ≡ false
  pub fits : p old ≡ true
  pub row : tables.users.find db'.users_now id ≡ some (f old)
  pub others :
      (j : ℕ) → id ≢ j → tables.users.find db'.users_now j ≡ tables.users.find db.users_now j

module _ (tables : Tables) where
  open tables.users use {find, write, find-write}

  pub update_where-Written :
      (db db' : Db tables) (id : ℕ) (p : User → Bool) (f : User → User)
      → update_where tables db id p f ≡ some db'
      → Written tables db db' id p f
  unfolding update_where
  update_where-Written db db' id p f h = elim (Option-cases (find db.users_now id)) [
    | inl missing ↦ absurd (ground arith)
    | inr (u, found) ↦ record {
      old = u;
      found = found;
      alive = ground arith;
      fits = ground arith;
      row = ground (arith, find-write db.users_now id id f, ==_iff id id);
      others = λ j ne. ground (arith, find-write db.users_now id j f, ==_iff id j);
    }
  ]

  -- A write of a user row leaves the sessions alone.
  pub sessions_now-update_where :
      (db db' : Db tables) (id : ℕ) (p : User → Bool) (f : User → User)
      → update_where tables db id p f ≡ some db'
      → db'.sessions_now ≡ db.sessions_now
  unfolding update_where
  sessions_now-update_where db db' id p f h = ground arith

-- The user `id` was not deleted, its status changed as the table allows, and no other user changed.
pub record Changed (tables : Tables) (table : UserStatus → UserStatus → Bool) (db db' : Db tables)
    (id : ℕ) : Type 0 where
  pub old : User
  pub new : User
  pub found : tables.users.find db.users_now id ≡ some old
  pub alive : old.is_deleted ≡ false
  pub row : tables.users.find db'.users_now id ≡ some new
  pub change : table old.status new.status ≡ true
  pub others :
      (j : ℕ) → id ≢ j → tables.users.find db'.users_now j ≡ tables.users.find db.users_now j

-- The methods, with their data.
pub data Method : Type 0 where
  do_approve : RolesDto → Text → Method
  do_reject : Option Text → Method
  do_unreject : Bool → RolesDto → Text → Method
  do_suspend : Method
  do_unsuspend : Text → Method
  do_reactivate : RolesDto → Text → Method
  do_deactivate : Method

-- The change of status that a method may make.
abbrev pub changes : Method → UserStatus → UserStatus → Bool
changes (do_approve dto token) old new = status_beq old pending && status_beq new active
changes (do_reject reason) old new = status_beq old pending && status_beq new rejected
changes (do_unreject true dto token) old new = status_beq old rejected && status_beq new active
changes (do_unreject false dto token) old new = status_beq old rejected && status_beq new pending
changes do_suspend old new = status_beq old active && status_beq new suspended
changes (do_unsuspend token) old new = status_beq old suspended && status_beq new active
changes (do_reactivate dto token) old new = status_beq old inactive && status_beq new active
changes do_deactivate old new =
    (status_beq old active || status_beq old suspended) && status_beq new inactive

module _ (tables : Tables) (find_roles : List ℕ → List RoleRow) where
  unfoldable pub run_method :
      Method → Db tables → Db tables → ℕ → ℕ → Actor → Result StatusError (Db tables)
  run_method (do_approve dto token) seen db now id actor =
      approve tables find_roles seen db now id actor dto token
  run_method (do_reject reason) seen db now id actor =
      reject tables find_roles seen db now id actor reason
  run_method (do_unreject flag dto token) seen db now id actor =
      unreject tables find_roles seen db now id actor flag dto token
  run_method do_suspend seen db now id actor = suspend tables find_roles seen db now id actor
  run_method (do_unsuspend token) seen db now id actor =
      unsuspend tables find_roles seen db now id actor token
  run_method (do_reactivate dto token) seen db now id actor =
      reactivate tables find_roles seen db now id actor dto token
  run_method do_deactivate seen db now id actor = deactivate tables find_roles seen db now id actor

module _ (tables : Tables) where
  pub guarded-ok : {A : Type 0} (o : Option A) (a : A) → guarded o ≡ ok a → o ≡ some a
  guarded-ok none a h = cc
  guarded-ok (some x) a h = ground arith

  -- A write is a change if its condition and its data are those of the table.
  pub Changed-Written :
      (table : UserStatus → UserStatus → Bool) (db db' db'' : Db tables) (id : ℕ) (p : User → Bool)
      (f : User → User)
      → ((u : User) → p u ≡ true → table u.status (f u).status ≡ true)
      → db''.users_now ≡ db'.users_now
      → update_where tables db id p f ≡ some db'
      → Changed tables table db db'' id
  Changed-Written table db db' db'' id p f keeps same h =
      let w = update_where-Written tables db db' id p f h in
      record {
        old = w.old;
        new = f w.old;
        found = w.found;
        alive = w.alive;
        row = rw same w.row;
        change = keeps w.old w.fits;
        others = λ j ne. rw same (w.others j ne);
      }

  pub activate_with_role-Changed :
      (table : UserStatus → UserStatus → Bool) (db db' : Db tables) (now id reviewer : ℕ)
      (required : UserStatus) (d : ActivateData) (extra : User → User)
      → ((u : User) → (extra u).status ≡ u.status)
      → table required active ≡ true
      → activate_with_role tables db now id reviewer required d extra ≡ some db'
      → Changed tables table db db' id
  unfolding activate_with_role
  activate_with_role-Changed table db db' now id reviewer required d extra same ok_table h =
      let f = λ (u : User). extra (activated tables now reviewer d u) in
      elim (Option-cases (update_where tables db id (with_status tables required) f)) [
        | inl missing ↦ absurd (ground arith)
        | inr (written, w) ↦
            Changed-Written table db written db' id (with_status tables required) f
              (λ u fits. ground (
                arith,
                same (activated tables now reviewer d u),
                ok_table,
                status_beq_lem u.status required fits,
              ))
              (ground arith) w
      ]
