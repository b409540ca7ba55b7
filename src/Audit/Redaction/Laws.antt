-- ===== src/Audit/Redaction/Laws.antt =====
-- What the sanitizing of a JSON value guarantees.
use edustell.Common.{
  ℕ, inr, inl, Option-cases, ◌||◌, String, ◌∷◌, [], List, Bool, true, false, ◌&&◌, ◌≡◌, refl, arith,
  if◌then◌else◌, str_eq,
}
use edustell.Domain.Json.{Json, Items, nil, item, Members, end, member}
use edustell.Audit.Redaction.{
  eq_codes, contains, to_ascii_lowercase, codes, is_sensitive_key, sanitize_json_value,
  sanitize_items, sanitize_members, sanitize_audit_log, with_context,
}
use edustell.Domain.Records.{AuditLog}
use edustell.Store.Env.{Env}

-- The texts that no key of a value may hold, in any case, and the keys that no value may have.
abbrev hidden_parts : List String
hidden_parts =
    "password" ∷ "secret" ∷ "token" ∷ "authorization" ∷ "payout_reference" ∷ "provider_reference"
    ∷ []

abbrev hidden_names : List String
hidden_names = "external_reference" ∷ "decision_notes" ∷ "review_notes" ∷ []

abbrev holds_part : List ℕ → List String → Bool
holds_part key [] = false
holds_part key (part ∷ rest) = contains key (codes part) || holds_part key rest

abbrev is_name : List ℕ → List String → Bool
is_name key [] = false
is_name key (name ∷ rest) = eq_codes key (codes name) || is_name key rest

unfoldable pub is_hidden_key : String → Bool
is_hidden_key key =
    let lower = to_ascii_lowercase (codes key) in
    holds_part lower hidden_parts || is_name lower hidden_names

is_sensitive_key-hidden : (key : String) → is_sensitive_key key ≡ is_hidden_key key
unfolding is_sensitive_key is_hidden_key
is_sensitive_key-hidden key = ground arith

abbrev is_redacted : Json → Bool
is_redacted (Json.string s) = str_eq s "[REDACTED]"
is_redacted _ = false

-- Every member with a hidden key, at any depth, holds the redaction mark.
unfoldable mutual
  pub is_clean : Json → Bool
  is_clean (Json.object map) = are_clean map
  is_clean (Json.array items) = all_clean items
  is_clean Json.null = true
  is_clean (Json.bool b) = true
  is_clean (Json.number n) = true
  is_clean (Json.string s) = true
  is_clean (Json.uuid u) = true

  pub all_clean : Items → Bool
  all_clean nil = true
  all_clean (item value rest) = is_clean value && all_clean rest

  pub are_clean : Members → Bool
  are_clean end = true
  are_clean (member key value rest) =
      (if is_hidden_key key then is_redacted value else is_clean value) && are_clean rest

mutual
  unfolding is_clean all_clean are_clean sanitize_json_value sanitize_items sanitize_members

  sanitize_json_value-clean : (j : Json) → is_clean (sanitize_json_value j) ≡ true
  sanitize_json_value-clean (Json.object map) = sanitize_members-clean map
  sanitize_json_value-clean (Json.array items) = sanitize_items-clean items
  sanitize_json_value-clean Json.null = refl
  sanitize_json_value-clean (Json.bool b) = refl
  sanitize_json_value-clean (Json.number n) = refl
  sanitize_json_value-clean (Json.string s) = refl
  sanitize_json_value-clean (Json.uuid u) = refl

  sanitize_items-clean : (items : Items) → all_clean (sanitize_items items) ≡ true
  sanitize_items-clean nil = refl
  sanitize_items-clean (item value rest) =
      ground (arith, sanitize_json_value-clean value, sanitize_items-clean rest)

  sanitize_members-clean : (map : Members) → are_clean (sanitize_members map) ≡ true
  sanitize_members-clean end = refl
  sanitize_members-clean (member key value rest) = ground (
    arith,
    is_sensitive_key-hidden key,
    sanitize_json_value-clean value,
    sanitize_members-clean rest,
  )

pub sanitize_audit_log-clean :
    (env : Env) (log : AuditLog)
    → (is_clean (sanitize_audit_log env log).metadata ≡ true)
      × ((sanitize_audit_log env log).action ≡ log.action)
      × ((sanitize_audit_log env log).actor_user_id ≡ log.actor_user_id)
      × ((sanitize_audit_log env log).entity_id ≡ log.entity_id)
unfolding sanitize_audit_log with_context
sanitize_audit_log-clean env log = elim (Option-cases env.audit_context) [
  | inl missing ↦ ground (arith, missing, sanitize_json_value-clean log.metadata)
  | inr (context, given) ↦ ground (arith, given, sanitize_json_value-clean log.metadata)
]
