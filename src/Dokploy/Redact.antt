-- ===== src/Dokploy/Redact.antt =====
-- `redact` of backend/scripts/dokploy-repair.py: what may be printed of a reply.
pub mod Hidden
use clusteration.Base.{
  ℕ, zero, suc, String, Bool, true, false, ◌||◌, List, [], ◌∷◌, any, ◌=ₛ◌, if◌then◌else◌,
}
use clusteration.Base.Text.{lower, contains}
use clusteration.Base.Json.{
  Json, Items, Fields, null, bool, num, real, str, arr, obj, nil, item, end, field,
}

abbrev sensitive_keys : List String
sensitive_keys =
    "env" ∷ "envs" ∷ "envvars" ∷ "environmentvariables" ∷ "buildargs" ∷ "buildsecrets" ∷ []

abbrev sensitive_key_parts : List String
sensitive_key_parts = "secret" ∷ "password" ∷ "token" ∷ "private" ∷ []

unfoldable pub is_sensitive : String → Bool
unfolding lower contains
is_sensitive key =
    let key_l = lower key in
    any (λ k. key_l =ₛ k) sensitive_keys || any (λ part. contains key_l part) sensitive_key_parts

-- Of a list, the first twenty items.
unfoldable mutual
  unfolding is_sensitive

  pub redact : Json → Json
  redact (obj d) = obj (redact_fields d)
  redact (arr xs) = arr (redact_items 20 xs)
  redact null = null
  redact (bool b) = bool b
  redact (num z) = num z
  redact (real z text) = real z text
  redact (str s) = str s

  pub redact_items : ℕ → Items → Items
  redact_items n nil = nil
  redact_items zero (item v xs) = nil
  redact_items (suc n) (item v xs) = item (redact v) (redact_items n xs)

  pub redact_fields : Fields → Fields
  redact_fields end = end
  redact_fields (field k v d) =
      let child = redact v in
      field k (if is_sensitive k then str "<redacted>" else child) (redact_fields d)
