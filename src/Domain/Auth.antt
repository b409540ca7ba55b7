-- ===== src/Domain/Auth.antt =====
-- Users as the handlers see them (crates/domain/src/auth.rs).
use edustell.Common.{ℕ, [], ◌∷◌, String, Bool, Option, ℤ}
use edustell.Domain.StringEnum.{StringEnum}

pub data UserRole : Type 0 where
  parent contributor student school_admin donor platform_admin : UserRole

instance abbrev pub user_role_enum : StringEnum UserRole
user_role_enum = record {
  as_str = elim [
    | UserRole.parent ↦ "parent"
    | UserRole.contributor ↦ "contributor"
    | UserRole.student ↦ "student"
    | UserRole.school_admin ↦ "school_admin"
    | UserRole.donor ↦ "donor"
    | UserRole.platform_admin ↦ "platform_admin"
  ];
  discriminant = elim [
    | UserRole.parent ↦ 0
    | UserRole.contributor ↦ 1
    | UserRole.student ↦ 2
    | UserRole.school_admin ↦ 3
    | UserRole.donor ↦ 4
    | UserRole.platform_admin ↦ 5
  ];
  variants =
      UserRole.parent ∷ UserRole.contributor ∷ UserRole.student ∷ UserRole.school_admin
      ∷ UserRole.donor ∷ UserRole.platform_admin ∷ [];
  invalid = "invalid user role";
}

-- `AuthenticatedUser`
pub record AuthenticatedUser : Type 0 where
  pub user_id : ℕ
  pub role : UserRole
  pub session_id : ℕ

pub record User : Type 0 where
  pub id : ℕ
  pub email : String
  pub password_hash : String
  pub role : UserRole
  pub email_verified : Bool
  pub mfa_enabled : Bool
  pub status : String
  pub created_at : ℕ
  pub updated_at : ℕ

pub record NewUser : Type 0 where
  pub email : String
  pub password_hash : String
  pub role : UserRole

pub record RefreshClaims : Type 0 where
  pub sub : ℕ
  pub session_id : ℕ
  pub exp : ℤ
  pub iat : ℤ
  pub token_type : String

pub record RefreshSession : Type 0 where
  pub id : ℕ
  pub user_id : ℕ
  pub token_hash : String
  pub expires_at : ℕ
  pub revoked_at : Option ℕ

pub record EmailVerificationToken : Type 0 where
  pub id : ℕ
  pub user_id : ℕ
  pub token_hash : String
  pub expires_at : ℕ
  pub consumed_at : Option ℕ

pub record PublicUser : Type 0 where
  pub id : ℕ
  pub email : String
  pub role : UserRole
  pub email_verified : Bool
  pub mfa_enabled : Bool
  pub status : String
  pub created_at : ℕ
  pub updated_at : ℕ

-- `From<User> for PublicUser`
abbrev pub to_public : User → PublicUser
to_public u = record {
  id = u.id;
  email = u.email;
  role = u.role;
  email_verified = u.email_verified;
  mfa_enabled = u.mfa_enabled;
  status = u.status;
  created_at = u.created_at;
  updated_at = u.updated_at;
}
