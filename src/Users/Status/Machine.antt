-- ===== src/Users/Status/Machine.antt =====
-- The status of a user as a state machine.
use ewu_taks.Base.{
  ℕ, List, Option, none, some, Bool, true, false, ◌||◌, if◌then◌else◌, Text, ◌≡◌, refl, arith, ok,
  Option-cases, inl, inr, >>=-returned,
}
use ewu_taks.Domain.{UserStatus, status_beq, pending, active, suspended, inactive, rejected}
use ewu_taks.Users.Store.{
  Tables, Db, update_where, with_status, approve_user, reject_user, unreject_to_pending,
  unreject_to_active, unsuspend_user, reactivate_user, suspend_user_in_tx, deactivate_user_in_tx,
  delete_credential_artifacts, delete_sessions, reactivated,
}
use ewu_taks.Users.Status.{
  Actor, RolesDto, RoleRow, approve, reject, unreject, suspend, unsuspend, reactivate, deactivate,
  guarded, approval_data, get_user_with_status_or_fail, get_user_or_fail, reactivation_roles,
  reactivation_checks, resolve_credential_flag,
}
use ewu_taks.Users.Status.Transitions.{
  Method, do_approve, do_reject, do_unreject, do_suspend, do_unsuspend, do_reactivate,
  do_deactivate, changes, run_method, Changed, Changed-Written, activate_with_role-Changed,
  guarded-ok,
}

module _ (tables : Tables) (find_roles : List ℕ → List RoleRow) (seen db db' : Db tables)
    (now id : ℕ) (actor : Actor) where
  approve-Changed :
      (dto : RolesDto) (token : Text)
      → approve tables find_roles seen db now id actor dto token ≡ ok db'
      → Changed tables (changes (do_approve dto token)) db db' id
  unfolding approve approve_user
  approve-Changed dto token h =
      let (u, checked, rest) =
        >>=-returned (get_user_with_status_or_fail tables find_roles seen id pending) _ h in
      let (d, data_ok, written) = >>=-returned (approval_data find_roles dto actor token) _ rest in
      activate_with_role-Changed tables (changes (do_approve dto token)) db db' now id
        actor.admin_id pending d (λ u. u) (λ u. refl) refl (guarded-ok tables _ db' written)

  reject-Changed :
      (reason : Option Text)
      → reject tables find_roles seen db now id actor reason ≡ ok db'
      → Changed tables (changes (do_reject reason)) db db' id
  unfolding reject reject_user
  reject-Changed reason h =
      let (u, checked, written) =
        >>=-returned (get_user_with_status_or_fail tables find_roles seen id pending) _ h in
      Changed-Written tables (changes (do_reject reason)) db db' db' id _ _ (λ u fits. ground arith)
        refl (guarded-ok tables _ db' written)

  Changed-same :
      (table : UserStatus → UserStatus → Bool) (start end : Db tables)
      → start.users_now ≡ db.users_now
      → end.users_now ≡ db'.users_now
      → Changed tables table start end id
      → Changed tables table db db' id
  Changed-same table start end same_start same_end c = record {
    old = c.old;
    new = c.new;
    found = rw (← same_start) c.found;
    alive = c.alive;
    row = rw (← same_end) c.row;
    change = c.change;
    others = λ j ne. rw (← same_start, ← same_end) (c.others j ne);
  }

  unreject-Changed :
      (flag : Bool) (dto : RolesDto) (token : Text)
      → unreject tables find_roles seen db now id actor flag dto token ≡ ok db'
      → Changed tables (changes (do_unreject flag dto token)) db db' id
  unfolding unreject unreject_to_active unreject_to_pending
  unreject-Changed true dto token h =
      let (u, checked, rest) =
        >>=-returned (get_user_with_status_or_fail tables find_roles seen id rejected) _ h in
      let (d, data_ok, written) = >>=-returned (approval_data find_roles dto actor token) _ rest in
      activate_with_role-Changed tables (changes (do_unreject true dto token)) db db' now id
        actor.admin_id rejected d (λ u. record u { rejection_reason = none }) (λ u. refl) refl
        (guarded-ok tables _ db' written)
  unreject-Changed false dto token h =
      let (u, checked, written) =
        >>=-returned (get_user_with_status_or_fail tables find_roles seen id rejected) _ h in
      Changed-Written tables (changes (do_unreject false dto token)) db db' db' id _ _
        (λ u fits. ground arith) refl (guarded-ok tables _ db' written)

  suspend-Changed :
      suspend tables find_roles seen db now id actor ≡ ok db'
      → Changed tables (changes do_suspend) db db' id
  unfolding suspend suspend_user_in_tx delete_sessions delete_credential_artifacts
  suspend-Changed h =
      let (u, checked, rest) =
        >>=-returned (get_user_or_fail tables find_roles seen id (λ st. status_beq st active)) _
          h in
      let (db1, written, last) = >>=-returned (guarded _) _ rest in
      Changed-same (changes do_suspend) _ db1 (ground arith) (ground arith) (
        Changed-Written tables (changes do_suspend) _ db1 db1 id _ _ (λ u fits. ground arith) refl
          (guarded-ok tables _ db1 written))

  unsuspend-Changed :
      (token : Text)
      → unsuspend tables find_roles seen db now id actor token ≡ ok db'
      → Changed tables (changes (do_unsuspend token)) db db' id
  unfolding unsuspend unsuspend_user
  unsuspend-Changed token h =
      let (u, checked, written) =
        >>=-returned (get_user_or_fail tables find_roles seen id (λ st. status_beq st suspended)) _
          h in
      Changed-Written tables (changes (do_unsuspend token)) db db' db' id _ _
        (λ u fits. ground arith) refl (guarded-ok tables _ db' written)

  deactivate-Changed :
      deactivate tables find_roles seen db now id actor ≡ ok db'
      → Changed tables (changes do_deactivate) db db' id
  unfolding deactivate deactivate_user_in_tx delete_sessions delete_credential_artifacts
  deactivate-Changed h =
      let (u, checked, rest) =
        >>=-returned
          (get_user_or_fail tables find_roles seen id
            (λ st. status_beq st active || status_beq st suspended))
          _ h in
      let (db1, written, last) = >>=-returned (guarded _) _ rest in
      Changed-same (changes do_deactivate) _ db1 (ground arith) (ground arith) (
        Changed-Written tables (changes do_deactivate) _ db1 db1 id _ _ (λ u fits. ground arith)
          refl (guarded-ok tables _ db1 written))

  reactivate_user-Changed :
      (dto : RolesDto) (token : Text) (enabled : Bool) (role_ids : Option (List ℕ))
      (t : Option Text)
      → reactivate_user tables db now id actor.admin_id enabled role_ids t ≡ some db'
      → Changed tables (changes (do_reactivate dto token)) db db' id
  unfolding reactivate_user
  reactivate_user-Changed dto token enabled role_ids t h =
      elim (Option-cases (
        update_where tables db id (with_status tables inactive)
          (reactivated tables now actor.admin_id enabled t))) [
            | inl missing ↦ absurd (ground arith)
            | inr (written, w) ↦
                Changed-Written tables (changes (do_reactivate dto token)) db written db' id _ _
                  (λ u fits. ground arith) (ground arith) w
          ]

  reactivate-Changed :
      (dto : RolesDto) (token : Text)
      → reactivate tables find_roles seen db now id actor dto token ≡ ok db'
      → Changed tables (changes (do_reactivate dto token)) db db' id
  unfolding reactivate
  reactivate-Changed dto token h =
      let (u, checked, h1) =
        >>=-returned (get_user_or_fail tables find_roles seen id (λ st. status_beq st inactive)) _
          h in
      let (role_ids, roles_ok, h2) =
        >>=-returned (reactivation_roles tables find_roles seen id dto.role_ids) _ h1 in
      let (c, checks_ok, written) =
        >>=-returned (reactivation_checks tables find_roles actor dto.role_ids role_ids) _ h2 in
      let enabled = resolve_credential_flag dto.is_credential_enabled in
      reactivate_user-Changed dto token enabled role_ids (if enabled then some token else none)
        (guarded-ok tables _ db' written)

-- Whatever other requests did between the check of a method and its transaction: if the method
-- returns, the user was not deleted at the moment of the write, its status then changed as the
-- table of the method says, and no other user was touched.
pub run_method-Changed :
    (tables : Tables) (find_roles : List ℕ → List RoleRow) (m : Method) (seen db db' : Db tables)
    (now id : ℕ) (actor : Actor)
    → run_method tables find_roles m seen db now id actor ≡ ok db'
    → Changed tables (changes m) db db' id
unfolding run_method
run_method-Changed tables find_roles (do_approve dto token) seen db db' now id actor h =
    approve-Changed tables find_roles seen db db' now id actor dto token h
run_method-Changed tables find_roles (do_reject reason) seen db db' now id actor h =
    reject-Changed tables find_roles seen db db' now id actor reason h
run_method-Changed tables find_roles (do_unreject flag dto token) seen db db' now id actor h =
    unreject-Changed tables find_roles seen db db' now id actor flag dto token h
run_method-Changed tables find_roles do_suspend seen db db' now id actor h =
    suspend-Changed tables find_roles seen db db' now id actor h
run_method-Changed tables find_roles (do_unsuspend token) seen db db' now id actor h =
    unsuspend-Changed tables find_roles seen db db' now id actor token h
run_method-Changed tables find_roles (do_reactivate dto token) seen db db' now id actor h =
    reactivate-Changed tables find_roles seen db db' now id actor dto token h
run_method-Changed tables find_roles do_deactivate seen db db' now id actor h =
    deactivate-Changed tables find_roles seen db db' now id actor h
