-- ===== src/Observability/Integrity.antt =====
-- pillar4_observability/integrity.py, and of telemetry.py the writing of an event: each event of a
-- correlation carries its hash, the hash of the one before, and a signature of both. SHA-256 of the
-- canonical JSON and the HMAC are parameters.
pub mod Sealed
pub mod Chain
pub mod Written
pub mod Persisted
use Prim.Native.String.{◌++◌ as join_text}
use acr_framework.Prelude.{
  ℕ, zero, suc, ◌+◌, String, Bool, true, false, not, ◌&&◌, Option, none, some, List, [], ◌∷◌, ◌++◌,
  ◌==◌, if◌then◌else◌, is_empty,
}
use acr_framework.Errors.{Result, ok, err, unexpected, ◌>>=◌, same_digest}
use acr_framework.Json.{
  Json, null, bool, int, float, str, arr, obj, Fields, end, field, get, set, truthy,
}

-- `payload_sha256`, the HMAC with the audit secret, and `str(v)` of a value that is no text.
pub record Crypto : Type 0 where
  pub payload_sha256 : Fields → String
  pub hmac : String → String
  pub to_text : Json → String

-- `d.pop(k, None)`
unfoldable pub pop : String → Fields → Fields
pop k end = end
pop k (field j v d) = let rest = pop k d in if j == k then rest else field j v rest

abbrev pub as_dict : Option Json → Option Fields
as_dict (some (obj d)) = some d
as_dict _ = none

-- `x = d.get(k); isinstance(x, dict)`
abbrev pub dict_at : String → Fields → Option Fields
dict_at k d = as_dict (get k d)

pub remove_integrity_metadata : Fields → Fields
remove_integrity_metadata payload = elim (dict_at "metadata" payload) [
  | some m ↦ set "metadata" (obj (pop "integrity" m)) payload
  | none ↦ payload
]

abbrev or_empty : Option String → String
or_empty none = ""
or_empty (some s) = s

pub sign_payload_hash : Crypto → String → Option String → String
sign_payload_hash c hash previous = c.hmac (join_text hash (join_text ":" (or_empty previous)))

abbrev pub text_of : Crypto → Json → String
text_of c (str s) = s
text_of c v = c.to_text v

abbrev given_text : Crypto → Option Json → Option String
given_text c none = none
given_text c (some v) = if truthy v then some (text_of c v) else none

pub extract_payload_hash : Crypto → Fields → Option String
extract_payload_hash c payload = elim (dict_at "metadata" payload) [
  | none ↦ none
  | some m ↦ elim (dict_at "integrity" m) [
    | none ↦ none
    | some i ↦ given_text c (get "payload_sha256" i)
  ]
]

pub data Reason : Type 0 where
  missing_integrity hash_mismatch previous_mismatch signature_mismatch : ℕ → Reason

pub record ChainReport : Type 0 where
  pub chain_valid : Bool
  pub verified_events : ℕ
  pub signed_events : ℕ
  pub root_event_sha256 : Option String
  pub invalid_reasons : List Reason

-- `integrity.get(k) == s`, for a text.
abbrev pub is_text : Option Json → String → Bool
is_text (some (str t)) s = t == s
is_text _ s = false

-- `integrity.get(k) == previous`, for a text or None.
abbrev pub is_text_or_none : Option Json → Option String → Bool
is_text_or_none o (some s) = is_text o s
is_text_or_none none none = true
is_text_or_none (some null) none = true
is_text_or_none (some _) none = false

-- `not actual_signature or not compare_digest(str(actual_signature), expected)`, the other way round.
unfoldable pub signature_fits : Crypto → Option Json → String → Result Bool
unfolding same_digest
signature_fits c none s = ok false
signature_fits c (some v) s = if truthy v then same_digest (text_of c v) s else ok false

-- The checks of one event: its hash, or why the loop stops.
pub data Verdict : Type 0 where
  linked : String → Verdict
  broken : Reason → Verdict

abbrev pub integrity_of : Fields → Option Fields
integrity_of event = elim (dict_at "metadata" event) [
  | none ↦ none
  | some m ↦ dict_at "integrity" m
]

abbrev pub signed : ℕ → String → Bool → Verdict
signed index hash true = linked hash
signed index hash false = broken (signature_mismatch index)

pub check_event : Crypto → ℕ → Option String → Fields → Result Verdict
unfolding signature_fits
check_event c index previous event = elim (integrity_of event) [
  | none ↦ ok (broken (missing_integrity index))
  | some i ↦
      let hash = c.payload_sha256 (remove_integrity_metadata event) in
      if not (is_text (get "payload_sha256" i) hash)
      then ok (broken (hash_mismatch index))
      else if not (is_text_or_none (get "previous_event_sha256" i) previous)
      then ok (broken (previous_mismatch index))
      else signature_fits c (get "record_signature" i) (sign_payload_hash c hash previous)
        >>= (λ fits. ok (signed index hash fits))
]

-- The loop, from an event on: how many were verified, the last hash, and the reasons.
pub verify_from :
    Crypto → ℕ → Option String → List Fields → Result (ℕ × Option String × List Reason)
unfolding check_event
verify_from c index previous [] = ok (index, previous, [])
verify_from c index previous (event ∷ events) = elim (check_event c index previous event) [
  | err e ↦ err e
  | ok (broken reason) ↦ ok (index, previous, reason ∷ [])
  | ok (linked hash) ↦ verify_from c (suc index) (some hash) events
]

abbrev pub report_of : ℕ × Option String × List Reason → ChainReport
report_of (verified, root, reasons) = record {
  chain_valid = is_empty reasons;
  verified_events = verified;
  signed_events = verified;
  root_event_sha256 = root;
  invalid_reasons = reasons;
}

pub verify_event_chain : Crypto → List Fields → Result ChainReport
unfolding verify_from
verify_event_chain c events = do checked ← verify_from c 0 none events; ok (report_of checked)

abbrev text_or_null : Option String → Json
text_or_null none = null
text_or_null (some s) = str s

abbrev pub integrity_entry : Crypto → String → Option String → Fields
integrity_entry c hash previous = field "payload_sha256" (str hash) (
    field "previous_event_sha256" (text_or_null previous) (
      field "record_signature" (str (sign_payload_hash c hash previous))
        (field "signature_algorithm" (str "hmac-sha256") end)))

-- `payload.setdefault("metadata", {})["integrity"] = {...}`; a metadata that is no dictionary raises.
add_integrity : Json → Fields → Result Fields
add_integrity entry payload = elim (get "metadata" payload) [
  | none ↦ ok (set "metadata" (obj (field "integrity" entry end)) payload)
  | some (obj m) ↦ ok (set "metadata" (obj (set "integrity" entry m)) payload)
  | some _ ↦ err unexpected
]

pub seal : Crypto → Option String → Fields → Result Fields
unfolding add_integrity
seal c previous payload =
    add_integrity
      (obj (integrity_entry c (c.payload_sha256 (remove_integrity_metadata payload)) previous))
      payload

-- The row of a correlation that was written last.
pub latest : List Fields → Option Fields
latest [] = none
latest (e ∷ []) = some e
latest (e ∷ f ∷ events) = latest (f ∷ events)

-- `_latest_correlation_event_hash`
pub latest_event_hash : Crypto → List Fields → Option String
latest_event_hash c rows = elim (latest rows) [
  | none ↦ none
  | some payload ↦ extract_payload_hash c payload
]

-- The payloads of one correlation, in the order in which they are written.
pub persist_event : Crypto → List Fields → Fields → Result (List Fields)
persist_event c rows payload = do
  sealed ← seal c (latest_event_hash c rows) payload
  ok (rows ++ sealed ∷ [])
