-- ===== src/Operators/Keys.antt =====
-- operator_keys/service.py: the keys of operators. The table has the hash of a key and not the key;
-- the hash function is a parameter, and a new key is an argument.
pub mod Revoked
pub mod History
pub mod Revocation
use acr_framework.Prelude.{
  ℕ, String, Bool, true, false, not, ◌&&◌, Option, none, some, List, [], ◌∷◌, ◌++◌, ◌==◌,
  if◌then◌else◌, is_empty, where_rows,
}
use acr_framework.Prelude.Table.{find, update}
use acr_framework.Errors.{
  Result, ok, err, operator_credential_not_found, unexpected, one_or_none, guard, ◌>>=◌, ◌>>◌,
}

-- A row of operator_credentials, without its times of creation and change.
pub record OperatorCredential : Type 0 where
  pub key_id : String
  pub name : String
  pub subject : String
  pub key_hash : String
  pub roles : List String
  pub is_active : Bool
  pub created_by : Option String
  pub revoked_by : Option String
  pub revoked_at : Option ℕ
  pub last_used_at : Option ℕ

-- OperatorKeyCreateRequest
pub record KeyRequest : Type 0 where
  pub name : String
  pub subject : String
  pub roles : List String

abbrev pub credential_key : OperatorCredential → String
credential_key r = r.key_id

-- Another row has the hash: the unique constraint on hashes refuses it.
abbrev pub clashes : String → String → OperatorCredential → Bool
clashes id h r = r.key_hash == h && not (r.key_id == id)

unfoldable pub unique_hash : String → String → List OperatorCredential → Bool
unique_hash id h rows = is_empty (where_rows (clashes id h) rows)

abbrev pub absent : Option OperatorCredential → Bool
absent none = true
absent (some r) = false

-- The new row has a fresh identifier.
unfoldable pub create_operator_key :
    (String → String)
    → String
    → String
    → KeyRequest
    → String
    → List OperatorCredential
    → Result (List OperatorCredential)
create_operator_key hash id api_key req created_by rows = do
  guard (absent (find credential_key id rows)) unexpected
  guard (unique_hash id (hash api_key) rows) unexpected
  ok (
      rows
      ++ record {
        key_id = id;
        name = req.name;
        subject = req.subject;
        key_hash = hash api_key;
        roles = req.roles;
        is_active = true;
        created_by = some created_by;
        revoked_by = none;
        revoked_at = none;
        last_used_at = none;
      }
        ∷ [])

unfoldable pub get_operator_key : String → List OperatorCredential → Result OperatorCredential
get_operator_key id rows = elim (find credential_key id rows) [
  | none ↦ err operator_credential_not_found
  | some r ↦ ok r
]

abbrev pub revoke : ℕ → String → OperatorCredential → OperatorCredential
revoke now by r = record r { is_active = false; revoked_by = some by; revoked_at = some now }

unfoldable pub revoke_operator_key :
    ℕ → String → String → List OperatorCredential → Result (List OperatorCredential)
unfolding get_operator_key
revoke_operator_key now id revoked_by rows = do
  r ← get_operator_key id rows
  ok (update credential_key id (revoke now revoked_by) rows)

abbrev pub renew : String → OperatorCredential → OperatorCredential
renew h r = record r {
  key_hash = h;
  revoked_by = none;
  revoked_at = none;
  is_active = true;
  last_used_at = none;
}

unfoldable pub rotate_operator_key :
    (String → String) → String → String → List OperatorCredential → Result (List OperatorCredential)
unfolding get_operator_key
rotate_operator_key hash id new_api_key rows = do
  r ← get_operator_key id rows
  guard (unique_hash id (hash new_api_key) rows) unexpected
  ok (update credential_key id (renew (hash new_api_key)) rows)

abbrev pub answers_to : String → OperatorCredential → Bool
answers_to h r = r.key_hash == h && r.is_active

unfoldable pub find_operator_key_by_hash :
    String → List OperatorCredential → Result (Option OperatorCredential)
find_operator_key_by_hash h rows = one_or_none (where_rows (answers_to h) rows)

abbrev pub touch : ℕ → OperatorCredential → OperatorCredential
touch now r = record r { last_used_at = some now }

unfoldable pub touch_operator_key_usage :
    ℕ → String → List OperatorCredential → List OperatorCredential
touch_operator_key_usage now id rows = update credential_key id (touch now) rows
