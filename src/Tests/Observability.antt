-- ===== src/Tests/Observability.antt =====
-- Two events of one correlation.
use acr_framework.Prelude.{String, ◌≡◌, ◌↔◌, refl, true, none, List, [], ◌∷◌, inl}
use acr_framework.Prelude.Text.{is_ascii}
use acr_framework.Errors.{AcrError, ok, err}
use acr_framework.Json.{truthy, str, obj, Fields, end, field, get}
use acr_framework.Observability.Integrity.{Crypto, ChainReport, verify_event_chain}
use acr_framework.Observability.Integrity.Chain.{
  IsChained, IsValid, Garbles, full_report, verify_event_chain_iff,
}
use acr_framework.Observability.Integrity.Written.{IsDigest}
use acr_framework.Observability.Integrity.Persisted.{persist_all, persist_all_verifies}

abbrev constant : Crypto
constant = record { payload_sha256 = λ d. "d1"; hmac = λ s. "c1"; to_text = λ v. "x" }

constant-IsDigest : IsDigest constant
unfolding is_ascii
constant-IsDigest = record {
  hash_given = λ d. refl;
  code_given = λ s. refl;
  code_ascii = λ s. refl;
}

abbrev event : String → Fields
event name = field "event_id" (str name) (field "metadata" (obj end) end)

abbrev events : List Fields
events = event "e1" ∷ event "e2" ∷ []

persist_all_verifies_example :
    (rows : List Fields) × (persist_all constant [] events ≡ ok rows)
    × ((report : ChainReport) × (verify_event_chain constant rows ≡ ok report)
        × (report.chain_valid ≡ true)
        × (report.verified_events ≡ 2))
unfolding get
persist_all_verifies_example =
    persist_all_verifies constant events constant-IsDigest ((end, refl), ((end, refl), tt))

verify_event_chain_iff_example :
    (IsValid constant events ↔ IsChained constant none events)
    × (IsChained constant none events
        ↔ (verify_event_chain constant events ≡ ok (full_report constant events)))
    × (((x : AcrError) × (verify_event_chain constant events ≡ err x))
        ↔ Garbles constant none events)
verify_event_chain_iff_example = verify_event_chain_iff constant events

-- An event with both hashes and a signature that is no ASCII text.
abbrev tampered : Fields
tampered =
    field "metadata"
      (obj (
        field "integrity"
          (obj (field "payload_sha256" (str "d1") (field "record_signature" (str "é") end))) end))
      end

tampered-Garbles : Garbles constant none (tampered ∷ [])
unfolding get is_ascii truthy
tampered-Garbles = inl (_, refl, refl, refl, (str "é", refl, refl, refl))
