-- ===== src/Tests/AccountRuns.antt =====
-- The handlers of accounts and sessions succeed at the sample accounts.
use edustell.Common.{◌≡◌, refl, true, ok, arith, select, update, is_some, succeeds, ◌<◌}
use edustell.Auth.Repository.{session_key, revoke}
use edustell.Auth.Handlers.{
  register, login, refresh, logout, issue_session, check_session, rotate_session, new_session,
}
use edustell.Tests.Accounts.{auth_env, user, accounts, login_input, one_user, taken}
use edustell.Common.{
  select, update, find, filter, any, total, trim, to_ascii_lowercase, starts_with, before,
  second_piece, contains, add_i64, sub_i64,
}
use edustell.Auth.Handlers.{
  normalize_email, ensure_registerable_role, ensure_active_user, new_session, issue_session,
  user_registered, record_audit, register, login_as, login, check_session, rotate_session, refresh,
  logout, current_user, begin_email_verification, verify_email, mfa_hooks,
}
use edustell.Auth.Repository.{
  map_repo_error, send, constrain, try_user, find_user_by_email, find_user_by_id, user_row,
  create_user, store_refresh_session, find_refresh_session, revoke, revoke_refresh_session,
  store_email_verification_token, find_email_verification_token, consume,
  consume_email_verification_token, mark_email_verified,
}
use edustell.Audit.Event.{new_event, into_log}
use edustell.Audit.Service.{from_persistence, error_text, record_event}
use edustell.Audit.Redaction.{is_sensitive_key, sanitize_audit_log}
use edustell.Store.AuditLogs.{append_audit_log}
use edustell.Store.Env.{map_err, violation, execute, require}
use edustell.Domain.StringEnum.{from_str}

pub refresh_runs : succeeds ((refresh auth_env "old" accounts).0) ≡ true
unfolding normalize_email ensure_registerable_role ensure_active_user new_session issue_session
    user_registered record_audit register login_as login check_session rotate_session refresh logout
    current_user begin_email_verification verify_email mfa_hooks map_repo_error send constrain
    try_user find_user_by_email find_user_by_id user_row create_user store_refresh_session
    find_refresh_session revoke revoke_refresh_session store_email_verification_token
    find_email_verification_token consume consume_email_verification_token mark_email_verified
    new_event into_log from_persistence error_text record_event is_sensitive_key sanitize_audit_log
    append_audit_log map_err violation execute require from_str select update find filter any total
    trim to_ascii_lowercase starts_with before second_piece contains add_i64 sub_i64
refresh_runs = refl

pub logout_runs : logout auth_env "old" accounts ≡ (ok tt, (logout auth_env "old" accounts).1)
unfolding normalize_email ensure_registerable_role ensure_active_user new_session issue_session
    user_registered record_audit register login_as login check_session rotate_session refresh logout
    current_user begin_email_verification verify_email mfa_hooks map_repo_error send constrain
    try_user find_user_by_email find_user_by_id user_row create_user store_refresh_session
    find_refresh_session revoke revoke_refresh_session store_email_verification_token
    find_email_verification_token consume consume_email_verification_token mark_email_verified
    new_event into_log from_persistence error_text record_event is_sensitive_key sanitize_audit_log
    append_audit_log map_err violation execute require from_str select update find filter any total
    trim to_ascii_lowercase starts_with before second_piece contains add_i64 sub_i64
logout_runs = refl

pub session_known : is_some (select 70 accounts.sessions) ≡ true
unfolding select
session_known = refl

pub login_runs : succeeds ((login auth_env login_input accounts).0) ≡ true
unfolding normalize_email ensure_registerable_role ensure_active_user new_session issue_session
    user_registered record_audit register login_as login check_session rotate_session refresh logout
    current_user begin_email_verification verify_email mfa_hooks map_repo_error send constrain
    try_user find_user_by_email find_user_by_id user_row create_user store_refresh_session
    find_refresh_session revoke revoke_refresh_session store_email_verification_token
    find_email_verification_token consume consume_email_verification_token mark_email_verified
    new_event into_log from_persistence error_text record_event is_sensitive_key sanitize_audit_log
    append_audit_log map_err violation execute require from_str select update find filter any total
    trim to_ascii_lowercase starts_with before second_piece contains add_i64 sub_i64
login_runs = refl

pub issue_runs : succeeds ((issue_session auth_env user accounts).0) ≡ true
unfolding normalize_email ensure_registerable_role ensure_active_user new_session issue_session
    user_registered record_audit register login_as login check_session rotate_session refresh logout
    current_user begin_email_verification verify_email mfa_hooks map_repo_error send constrain
    try_user find_user_by_email find_user_by_id user_row create_user store_refresh_session
    find_refresh_session revoke revoke_refresh_session store_email_verification_token
    find_email_verification_token consume consume_email_verification_token mark_email_verified
    new_event into_log from_persistence error_text record_event is_sensitive_key sanitize_audit_log
    append_audit_log map_err violation execute require from_str select update find filter any total
    trim to_ascii_lowercase starts_with before second_piece contains add_i64 sub_i64
issue_runs = refl

pub one_user_runs : succeeds ((issue_session one_user user accounts).0) ≡ true
unfolding normalize_email ensure_registerable_role ensure_active_user new_session issue_session
    user_registered record_audit register login_as login check_session rotate_session refresh logout
    current_user begin_email_verification verify_email mfa_hooks map_repo_error send constrain
    try_user find_user_by_email find_user_by_id user_row create_user store_refresh_session
    find_refresh_session revoke revoke_refresh_session store_email_verification_token
    find_email_verification_token consume consume_email_verification_token mark_email_verified
    new_event into_log from_persistence error_text record_event is_sensitive_key sanitize_audit_log
    append_audit_log map_err violation execute require from_str select update find filter any total
    trim to_ascii_lowercase starts_with before second_piece contains add_i64 sub_i64
one_user_runs = refl

pub token_expires :
    1000 < (taken (issue_session one_user user accounts) one_user_runs).tokens.refresh_expires_at
unfolding normalize_email ensure_registerable_role ensure_active_user new_session issue_session
    user_registered record_audit register login_as login check_session rotate_session refresh logout
    current_user begin_email_verification verify_email mfa_hooks map_repo_error send constrain
    try_user find_user_by_email find_user_by_id user_row create_user store_refresh_session
    find_refresh_session revoke revoke_refresh_session store_email_verification_token
    find_email_verification_token consume consume_email_verification_token mark_email_verified
    new_event into_log from_persistence error_text record_event is_sensitive_key sanitize_audit_log
    append_audit_log map_err violation execute require from_str select update find filter any total
    trim to_ascii_lowercase starts_with before second_piece contains add_i64 sub_i64
token_expires = ground arith
