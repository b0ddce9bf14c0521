-- ===== src/Observability/Integrity/Persisted.antt =====
-- The events of a correlation, as they are written one after the other, verify.
use acr_framework.Prelude.{
  String, ◌≡◌, refl, sym, ap, ◌∙◌, true, Option, none, some, List, [], ◌∷◌, ◌++◌, arith, length,
  All, ◌+◌, length-append,
}
use acr_framework.Errors.{◌>>=◌, Result, ok}
use acr_framework.Json.{Fields}
use acr_framework.Observability.Integrity.{
  Crypto, dict_at, extract_payload_hash, seal, latest, latest_event_hash, persist_event,
  verify_event_chain, ChainReport,
}
use acr_framework.Observability.Integrity.Sealed.{hash_of, IsSealed}
use acr_framework.Observability.Integrity.Chain.{
  IsChained, root_of, full_report, verify_event_chain_iff,
}
use acr_framework.Observability.Integrity.Written.{
  IsDigest, written, entry_after, seal-written, written-IsSealed, extract_written,
}

latest-append : (rows : List Fields) (e : Fields) → latest (rows ++ e ∷ []) ≡ some e
unfolding latest
latest-append [] e = refl
latest-append (r ∷ []) e = refl
latest-append (r ∷ q ∷ rows) e = latest-append (q ∷ rows) e

root-append :
    (c : Crypto) (previous : Option String) (rows : List Fields) (e : Fields)
    → root_of c previous (rows ++ e ∷ []) ≡ some (hash_of c e)
root-append c previous [] e = refl
root-append c previous (r ∷ rows) e = root-append c (some (hash_of c r)) rows e

append-IsChained :
    (c : Crypto) (previous : Option String) (rows : List Fields) (e : Fields)
    → IsChained c previous rows
    → IsSealed c (root_of c previous rows) e
    → IsChained c previous (rows ++ e ∷ [])
append-IsChained c previous [] e chained sealed = (sealed, tt)
append-IsChained c previous (r ∷ rows) e (first, rest) sealed =
    (first, append-IsChained c (some (hash_of c r)) rows e rest sealed)

-- The events of a correlation are written one after the other.
unfoldable pub persist_all : Crypto → List Fields → List Fields → Result (List Fields)
persist_all c rows [] = ok rows
persist_all c rows (payload ∷ payloads) =
    persist_event c rows payload >>= λ rows'. persist_all c rows' payloads

-- The rows are a chain, and the hash that the next event will name is that of the last row.
record IsCurrent (c : Crypto) (rows : List Fields) : Type 0 where
  chained : IsChained c none rows
  current : latest_event_hash c rows ≡ root_of c none rows

latest_is :
    (c : Crypto) (rows : List Fields) (e : Fields)
    → latest_event_hash c (rows ++ e ∷ []) ≡ extract_payload_hash c e
unfolding latest_event_hash
latest_is c rows e = ground (arith, latest-append rows e)

start : (c : Crypto) → IsCurrent c []
unfolding latest_event_hash latest
start c = record { chained = tt; current = refl }

IsCurrent-after :
    (c : Crypto) (rows : List Fields) (payload m : Fields)
    → IsDigest c
    → dict_at "metadata" payload ≡ some m
    → IsCurrent c rows
    → IsCurrent c (rows ++ written payload m (entry_after c (root_of c none rows) payload) ∷ [])
unfolding latest_event_hash
IsCurrent-after c rows payload m g h now =
    let e = written payload m (entry_after c (root_of c none rows) payload) in
    record {
      chained =
          append-IsChained c none rows e now.chained
            (written-IsSealed c (root_of c none rows) payload m g h);
      current =
          latest_is c rows e
          ∙ extract_written c (root_of c none rows) payload m g h
          ∙ sym (root-append c none rows e);
    }

persist_written :
    (c : Crypto) (rows : List Fields) (payload m : Fields)
    → dict_at "metadata" payload ≡ some m
    → IsCurrent c rows
    → persist_event c rows payload
      ≡ ok (rows ++ written payload m (entry_after c (root_of c none rows) payload) ∷ [])
unfolding persist_event
persist_written c rows payload m h now =
    ap (λ p. seal c p payload >>= λ sealed. ok (rows ++ sealed ∷ [])) now.current
    ∙ ap (λ r. r >>= λ sealed. ok (rows ++ sealed ∷ []))
        (seal-written c (root_of c none rows) payload m h)

-- The schema of an event makes its metadata a dictionary.
abbrev pub IsEvent : Fields → Type 0
IsEvent payload = (m : Fields) × (dict_at "metadata" payload ≡ some m)

persist_all-IsCurrent :
    (c : Crypto) (payloads rows : List Fields)
    → IsDigest c
    → All IsEvent payloads
    → IsCurrent c rows
    → (rows' : List Fields) × (persist_all c rows payloads ≡ ok rows')
      × IsCurrent c rows'
      × (length rows' ≡ length rows + length payloads)
unfolding persist_all
persist_all-IsCurrent c [] rows g events now = (rows, refl, now, omega arith)
persist_all-IsCurrent c (payload ∷ payloads) rows g ((m, h), events) now =
    let e = written payload m (entry_after c (root_of c none rows) payload) in
    let (rows', all, now', long) =
      persist_all-IsCurrent c payloads (rows ++ e ∷ []) g events
        (IsCurrent-after c rows payload m g h now) in
    (
      rows',
      ap (λ r. r >>= λ x. persist_all c x payloads) (persist_written c rows payload m h now) ∙ all,
      now',
      omega (arith, long, length-append rows (e ∷ [])),
    )

-- The events of a correlation that are written one after the other verify: writing them succeeds, and
-- the report on the rows is valid and counts every event. The metadata of an event is a dictionary,
-- a digest and a code are never empty, and a code is an ASCII text.
pub persist_all_verifies :
    (c : Crypto) (payloads : List Fields)
    → IsDigest c
    → All IsEvent payloads
    → (rows : List Fields) × (persist_all c [] payloads ≡ ok rows)
      × ((report : ChainReport) × (verify_event_chain c rows ≡ ok report)
          × (report.chain_valid ≡ true)
          × (report.verified_events ≡ length payloads))
persist_all_verifies c payloads g events =
    let (rows, all, now, long) = persist_all-IsCurrent c payloads [] g events (start c) in
    (
      rows,
      all,
      (
        full_report c rows,
        (verify_event_chain_iff c rows).1.0 now.chained,
        refl,
        long ∙ omega arith,
      ),
    )
