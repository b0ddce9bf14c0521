-- ===== src/Observability/Integrity/Chain.antt =====
-- What a chain of events is, independently of the loop that verifies it.
use mathlib.Core.Path.{subst}
use acr_framework.Prelude.{
  ◌⊎◌, ℕ, suc, ◌+◌, String, ◌≡◌, refl, sym, ap, ◌∙◌, ◌↔◌, true, Option, none, some, List, [], ◌∷◌,
  arith, length, inl, inr,
}
use acr_framework.Errors.{AcrError, Result, ok, err, unexpected, ◌>>=◌}
use acr_framework.Json.{Fields}
use acr_framework.Observability.Integrity.{
  Crypto, Verdict, Reason, linked, broken, check_event, verify_from, verify_event_chain,
  ChainReport, report_of, err, ok, unexpected,
}
use acr_framework.Observability.Integrity.Sealed.{
  hash_of, IsSealed, IsGarbled, sealed-linked, garbled-err, linked-IsSealed, err-IsGarbled,
}

abbrev pub IsChained : Crypto → Option String → List Fields → Type 0
IsChained c previous [] = Unit
IsChained c previous (e ∷ es) = IsSealed c previous e × IsChained c (some (hash_of c e)) es

-- The hash that the next event has to name.
abbrev pub root_of : Crypto → Option String → List Fields → Option String
root_of c previous [] = previous
root_of c previous (e ∷ es) = root_of c (some (hash_of c e)) es

-- The first event that is not sealed is garbled.
abbrev pub Garbles : Crypto → Option String → List Fields → Type 0
Garbles c previous [] = ⊥
Garbles c previous (e ∷ es) =
    IsGarbled c previous e ⊎ (IsSealed c previous e × Garbles c (some (hash_of c e)) es)

verdict_cases :
    (v : Result Verdict)
    → ((h : String) × (v ≡ ok (linked h)))
      ⊎ (((r : Reason) × (v ≡ ok (broken r))) ⊎ ((x : AcrError) × (v ≡ err x)))
verdict_cases (ok (linked h)) = inl (h, refl)
verdict_cases (ok (broken r)) = inr (inl (r, refl))
verdict_cases (err x) = inr (inr (x, refl))

module _ (c : Crypto) (index : ℕ) (previous : Option String) (e : Fields) (es : List Fields) where
  linked_next :
      {hash : String}
      → check_event c index previous e ≡ ok (linked hash)
      → verify_from c index previous (e ∷ es) ≡ verify_from c (suc index) (some hash) es
  unfolding verify_from
  linked_next p = ground arith

  broken_stops :
      {r : Reason}
      → check_event c index previous e ≡ ok (broken r)
      → verify_from c index previous (e ∷ es) ≡ ok (index, previous, r ∷ [])
  unfolding verify_from
  broken_stops p = ground arith

  err_stops :
      {x : AcrError}
      → check_event c index previous e ≡ err x
      → verify_from c index previous (e ∷ es) ≡ err x
  unfolding verify_from
  err_stops p = ground arith

chained-verified :
    (c : Crypto) (index : ℕ) (previous : Option String) (es : List Fields)
    → IsChained c previous es
    → verify_from c index previous es ≡ ok (index + length es, root_of c previous es, [])
unfolding verify_from
chained-verified c index previous [] h = ap (λ n. ok (n, previous, [])) (omega arith)
chained-verified c index previous (e ∷ es) (sealed, rest) =
    linked_next c index previous e es (sealed-linked c index previous e sealed)
    ∙ chained-verified c (suc index) (some (hash_of c e)) es rest
    ∙ ap (λ n. ok (n, root_of c (some (hash_of c e)) es, [])) (omega arith)

Garbles-verified :
    (c : Crypto) (index : ℕ) (previous : Option String) (es : List Fields)
    → Garbles c previous es
    → verify_from c index previous es ≡ err unexpected
unfolding verify_from
Garbles-verified c index previous [] h = absurd h
Garbles-verified c index previous (e ∷ es) (inl garbled) =
    err_stops c index previous e es (garbled-err c index previous e garbled)
Garbles-verified c index previous (e ∷ es) (inr (sealed, rest)) =
    linked_next c index previous e es (sealed-linked c index previous e sealed)
    ∙ Garbles-verified c (suc index) (some (hash_of c e)) es rest

-- What an outcome of the loop says of the events.
Explains : Crypto → Option String → List Fields → Result (ℕ × Option String × List Reason) → Type 0
Explains c previous es (ok (n, root, [])) = IsChained c previous es
Explains c previous es (ok (n, root, r ∷ rs)) = Unit
Explains c previous es (err x) = Garbles c previous es

explained_next :
    (c : Crypto) (previous : Option String) (e : Fields) (es : List Fields)
    (o : Result (ℕ × Option String × List Reason))
    → IsSealed c previous e
    → Explains c (some (hash_of c e)) es o
    → Explains c previous (e ∷ es) o
unfolding Explains
explained_next c previous e es (ok (n, root, [])) sealed rest = (sealed, rest)
explained_next c previous e es (ok (n, root, r ∷ rs)) sealed rest = tt
explained_next c previous e es (err x) sealed rest = inr (sealed, rest)

verify_from-Explains :
    (c : Crypto) (index : ℕ) (previous : Option String) (es : List Fields)
    → Explains c previous es (verify_from c index previous es)
unfolding verify_from Explains
verify_from-Explains c index previous [] = tt
verify_from-Explains c index previous (e ∷ es) =
    elim (verdict_cases (check_event c index previous e)) [
      | inl (hash, p) ↦
          let (own, sealed) = linked-IsSealed c index previous e hash p in
          subst (Explains c previous (e ∷ es)) (sym (linked_next c index previous e es p)) (
            explained_next c previous e es _ sealed (
              subst (λ x. Explains c (some x) es (verify_from c (suc index) (some hash) es)) own
                (verify_from-Explains c (suc index) (some hash) es)))
      | inr (inl (r, p)) ↦
          subst (Explains c previous (e ∷ es)) (sym (broken_stops c index previous e es p)) tt
      | inr (inr (x, p)) ↦
          subst (Explains c previous (e ∷ es)) (sym (err_stops c index previous e es p))
            (inl (err-IsGarbled c index previous e x p))
    ]

pub IsValid : Crypto → List Fields → Type 0
IsValid c es =
    (report : ChainReport) × (verify_event_chain c es ≡ ok report) × (report.chain_valid ≡ true)

-- The report on a chain.
abbrev pub full_report : Crypto → List Fields → ChainReport
full_report c es = record {
  chain_valid = true;
  verified_events = length es;
  signed_events = length es;
  root_event_sha256 = root_of c none es;
  invalid_reasons = [];
}

reported : Result (ℕ × Option String × List Reason) → Result ChainReport
reported o = o >>= (λ checked. ok (report_of checked))

valid-IsChained :
    (c : Crypto) (es : List Fields) (o : Result (ℕ × Option String × List Reason))
    (report : ChainReport)
    → Explains c none es o
    → reported o ≡ ok report
    → report.chain_valid ≡ true
    → IsChained c none es
unfolding Explains reported
valid-IsChained c es (ok (n, root, [])) report chained h valid = chained
valid-IsChained c es (ok (n, root, r ∷ rs)) report _ h valid = absurd (ground arith)
valid-IsChained c es (err x) report _ h valid = absurd (ground arith)

err-Garbles :
    (c : Crypto) (es : List Fields) (o : Result (ℕ × Option String × List Reason)) (x : AcrError)
    → Explains c none es o
    → reported o ≡ err x
    → Garbles c none es
unfolding Explains reported
err-Garbles c es (ok (n, root, rs)) x _ h = absurd (ground arith)
err-Garbles c es (err y) x garbles h = garbles

full_verified :
    (c : Crypto) (es : List Fields)
    → IsChained c none es
    → verify_event_chain c es ≡ ok (full_report c es)
unfolding verify_event_chain
full_verified c es chained =
    rw (verify_event_chain, chained-verified c 0 none es chained)
      (ap (λ n. ok (report_of (n, root_of c none es, []))) (omega arith))

-- A report is valid exactly if every event is sealed: its integrity metadata names the hash of its
-- content, the hash of the event before it (none at the first), and the signature of the two. It is
-- then the report that counts every event, gives no reason, and has the hash of the last event as its
-- root. There is no report, but an exception, exactly if the first event that is not sealed names both
-- hashes and has a signature that cannot be compared, since it or the expected one is no ASCII text.
pub verify_event_chain_iff :
    (c : Crypto) (es : List Fields)
    → (IsValid c es ↔ IsChained c none es)
      × (IsChained c none es ↔ (verify_event_chain c es ≡ ok (full_report c es)))
      × (((x : AcrError) × (verify_event_chain c es ≡ err x)) ↔ Garbles c none es)
unfolding verify_event_chain IsValid reported
verify_event_chain_iff c es =
    let explained = verify_from-Explains c 0 none es in
    let chained : IsValid c es → IsChained c none es = λ (report, h, valid).
      valid-IsChained c es (verify_from c 0 none es) report explained h valid in
    (
      (chained, λ h. (full_report c es, full_verified c es h, refl)),
      (full_verified c es, λ h. chained (full_report c es, h, refl)),
      (
        λ (x, h). err-Garbles c es (verify_from c 0 none es) x explained h,
        λ h. (unexpected, rw (Garbles-verified c 0 none es h) refl),
      ),
    )
