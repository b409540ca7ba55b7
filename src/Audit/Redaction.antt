-- ===== src/Audit/Redaction.antt =====
-- What is written to the audit table: the metadata with sensitive values removed, and the request's
-- identifiers (`sanitize_audit_log`, crates/infrastructure/src/persistence/repos.rs).
pub mod Laws
use Prim.Native.Char.{code}
use edustell.Common.{
  ℕ, String, Bool, true, false, ◌&&◌, ◌||◌, Option, none, some, List, [], ◌∷◌, ◌+◌, leb, ◌==◌,
  or_option, if◌then◌else◌,
}
use edustell.Domain.Json.{Json, Items, nil, item, Members, end, member}
use edustell.Domain.Records.{AuditLog}
use edustell.Store.Env.{Env, AuditContext}

-- The code points of a text.
abbrev pub codes : String → List ℕ
codes String.[] = []
codes (String.◌∷◌ c s) = code c ∷ codes s

-- `str::to_ascii_lowercase`
pub lower_code : ℕ → ℕ
lower_code c = if leb b'A' c && leb c b'Z' then c + 32 else c

unfoldable pub to_ascii_lowercase : List ℕ → List ℕ
unfolding lower_code
to_ascii_lowercase [] = []
to_ascii_lowercase (c ∷ s) = lower_code c ∷ to_ascii_lowercase s

pub starts_with : List ℕ → List ℕ → Bool
starts_with s [] = true
starts_with [] (p ∷ q) = false
starts_with (c ∷ s) (p ∷ q) = c == p && starts_with s q

-- `str::contains`
unfoldable pub contains : List ℕ → List ℕ → Bool
unfolding starts_with
contains [] p = starts_with [] p
contains (c ∷ s) p = starts_with (c ∷ s) p || contains s p

unfoldable pub eq_codes : List ℕ → List ℕ → Bool
eq_codes [] [] = true
eq_codes (a ∷ s) (b ∷ t) = a == b && eq_codes s t
eq_codes _ _ = false

unfoldable pub is_sensitive_key : String → Bool
unfolding to_ascii_lowercase contains eq_codes
is_sensitive_key key =
    let normalized = to_ascii_lowercase (codes key) in
    contains normalized (codes "password")
    || contains normalized (codes "secret")
    || contains normalized (codes "token")
    || contains normalized (codes "authorization")
    || contains normalized (codes "payout_reference")
    || contains normalized (codes "provider_reference")
    || eq_codes normalized (codes "external_reference")
    || eq_codes normalized (codes "decision_notes")
    || eq_codes normalized (codes "review_notes")

abbrev pub redacted : Json
redacted = Json.string "[REDACTED]"

unfoldable mutual
  pub sanitize_json_value : Json → Json
  sanitize_json_value (Json.object map) = Json.object (sanitize_members map)
  sanitize_json_value (Json.array items) = Json.array (sanitize_items items)
  sanitize_json_value Json.null = Json.null
  sanitize_json_value (Json.bool b) = Json.bool b
  sanitize_json_value (Json.number n) = Json.number n
  sanitize_json_value (Json.string s) = Json.string s
  sanitize_json_value (Json.uuid u) = Json.uuid u

  pub sanitize_items : Items → Items
  sanitize_items nil = nil
  sanitize_items (item value rest) = item (sanitize_json_value value) (sanitize_items rest)

  pub sanitize_members : Members → Members
  sanitize_members end = end
  sanitize_members (member key value rest) =
      member key (if is_sensitive_key key then redacted else sanitize_json_value value)
        (sanitize_members rest)

-- The request's identifiers, where the log has none.
pub with_context : Option AuditContext → AuditLog → AuditLog
with_context none log = log
with_context (some context) log = record log {
  request_id = or_option log.request_id (some context.request_id);
  correlation_id = or_option log.correlation_id (some context.correlation_id);
}

unfoldable pub sanitize_audit_log : Env → AuditLog → AuditLog
unfolding with_context
sanitize_audit_log env log =
    let attached = with_context env.audit_context log in
    record attached { metadata = sanitize_json_value attached.metadata }
