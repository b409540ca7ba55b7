-- ===== src/Tests/AccountWitnesses.antt =====
-- The properties of accounts and sessions at the sample accounts.
use edustell.Common.{◌≡◌, refl, ok, err, String, update, ◌⊎◌}
use edustell.Domain.Auth.{RefreshClaims, RefreshSession}
use edustell.Auth.Ports.{AuthError}
use edustell.Auth.Repository.{session_key, revoke}
use edustell.Auth.Handlers.{
  register, login, refresh, logout, issue_session, check_session, rotate_session,
}
use edustell.Auth.Revocation.{Run, Step}
use edustell.Auth.Sessions.{refresh-once, logout-final, rotate_session-unchecked}
use edustell.Auth.Accounts.{AddedUser, LoggedIn, register-AddedUser, login-LoggedIn}
use edustell.Auth.Lifetime.{check_session-issued}
use edustell.Tests.Accounts.{
  claims_of, auth_env, user, old_session, accounts, register_input, login_input, refreshed,
  one_user, one_user-Understands, taken, taken_lem,
}
use edustell.Tests.AccountRuns.{
  refresh_runs, logout_runs, session_known, login_runs, one_user_runs, token_expires,
}

refresh-once_example :
    refresh auth_env "old" ((logout auth_env "new" refreshed).1)
    ≡ (err AuthError.unauthorized, (logout auth_env "new" refreshed).1)
refresh-once_example =
    refresh-once auth_env auth_env "old" (claims_of 70) accounts refreshed
      ((logout auth_env "new" refreshed).1) (taken (refresh auth_env "old" accounts) refresh_runs)
      refl refl refl (taken_lem (refresh auth_env "old" accounts) refresh_runs)
      (Run.next refreshed ((logout auth_env "new" refreshed).1)
        ((logout auth_env "new" refreshed).1) (Step.logged_out auth_env "new" refreshed)
        (Run.done ((logout auth_env "new" refreshed).1)))

logout-final_example :
    refresh auth_env "old" ((logout auth_env "old" accounts).1)
    ≡ (err AuthError.unauthorized, (logout auth_env "old" accounts).1)
logout-final_example =
    logout-final auth_env auth_env "old" (claims_of 70) accounts
      ((logout auth_env "old" accounts).1) ((logout auth_env "old" accounts).1) refl refl refl
      session_known logout_runs (Run.done ((logout auth_env "old" accounts).1))

rotate_session-unchecked_example :
    (rotate_session auth_env
      (claims_of 70, old_session)
      (record accounts { sessions = update 70 (revoke auth_env) accounts.sessions })).0
    ≡ (rotate_session auth_env (claims_of 70, old_session) accounts).0
rotate_session-unchecked_example =
    rotate_session-unchecked auth_env auth_env (claims_of 70) old_session accounts

register-AddedUser_example :
    ((register auth_env register_input accounts).1.users ≡ accounts.users)
    ⊎ ((hash : String) × AddedUser auth_env register_input hash accounts
          ((register auth_env register_input accounts).1))
register-AddedUser_example = register-AddedUser auth_env register_input accounts

login-LoggedIn_example :
    LoggedIn auth_env login_input accounts (taken (login auth_env login_input accounts) login_runs)
login-LoggedIn_example =
    login-LoggedIn auth_env login_input accounts ((login auth_env login_input accounts).1)
      (taken (login auth_env login_input accounts) login_runs)
      (taken_lem (login auth_env login_input accounts) login_runs)

check_session-issued_example :
    (checked : RefreshClaims × RefreshSession) × (check_session one_user
        (taken (issue_session one_user user accounts) one_user_runs).tokens.refresh_token
        ((issue_session one_user user accounts).1)
      ≡ (ok checked, (issue_session one_user user accounts).1))
check_session-issued_example =
    check_session-issued one_user one_user user accounts ((issue_session one_user user accounts).1)
      (taken (issue_session one_user user accounts) one_user_runs) one_user-Understands refl
      (taken_lem (issue_session one_user user accounts) one_user_runs) token_expires
