-- ===== src/Observability/Integrity/Sealed.antt =====
-- What a sealed event is, independently of the checks, and what the checks of one event say of it.
use acr_framework.Prelude.{
  false, ◌&&◌, ℕ, String, ◌≡◌, refl, ap, true, Option, none, some, arith, str_iff, str_refl,
  Option-cases, inl, inr,
}
use acr_framework.Prelude.Text.{is_ascii}
use acr_framework.Errors.{AcrError, ok, err, unexpected, same_digest}
use acr_framework.Json.{truthy, Json, str, Fields, get, truthy}
use acr_framework.Observability.Integrity.{
  Crypto, text_of, signed, remove_integrity_metadata, integrity_of, sign_payload_hash,
  is_text_or_none, signature_fits, linked, check_event, is_text, err, ok, unexpected,
}

abbrev pub hash_of : Crypto → Fields → String
hash_of c e = c.payload_sha256 (remove_integrity_metadata e)

-- The event names its own hash and the one before it, and its signature is that of both.
abbrev pub IsSealed : Crypto → Option String → Fields → Type 0
IsSealed c previous e =
    (i : Fields) × (integrity_of e ≡ some i)
    × (get "payload_sha256" i ≡ some (str (hash_of c e)))
    × (is_text_or_none (get "previous_event_sha256" i) previous ≡ true)
    × (signature_fits c (get "record_signature" i) (sign_payload_hash c (hash_of c e) previous)
        ≡ ok true)

-- The event names its own hash and the one before it, and its signature, or the one that is expected,
-- is no ASCII text.
abbrev pub IsGarbled : Crypto → Option String → Fields → Type 0
IsGarbled c previous e =
    (i : Fields) × (integrity_of e ≡ some i)
    × (get "payload_sha256" i ≡ some (str (hash_of c e)))
    × (is_text_or_none (get "previous_event_sha256" i) previous ≡ true)
    × ((v : Json) × (get "record_signature" i ≡ some v)
        × (truthy v ≡ true)
        × (is_ascii (text_of c v) && is_ascii (sign_payload_hash c (hash_of c e) previous) ≡ false))

pub sealed-linked :
    (c : Crypto) (index : ℕ) (previous : Option String) (e : Fields)
    → IsSealed c previous e
    → check_event c index previous e ≡ ok (linked (hash_of c e))
unfolding check_event
sealed-linked c index previous e (i, named, own, before, signed) =
    ground (arith, str_refl (hash_of c e))

garbled_signature :
    (c : Crypto) (o : Option Json) (s : String)
    → ((v : Json) × (o ≡ some v)
        × (truthy v ≡ true)
        × (is_ascii (text_of c v) && is_ascii s ≡ false))
    → signature_fits c o s ≡ err unexpected
unfolding signature_fits
garbled_signature c o s (v, given, some_text, garbled) =
    rw (given, signature_fits, some_text, same_digest, garbled) refl

pub garbled-err :
    (c : Crypto) (index : ℕ) (previous : Option String) (e : Fields)
    → IsGarbled c previous e
    → check_event c index previous e ≡ err unexpected
unfolding check_event
garbled-err c index previous e (i, named, own, before, garbled) =
    ground (arith, str_refl (hash_of c e), garbled_signature c (get "record_signature" i) _ garbled)

is_text_str : (o : Option Json) (t : String) → is_text o t ≡ true → o ≡ some (str t)
is_text_str none t h = absurd cc
is_text_str (some (str u)) t h = ap (λ x. some (str x)) ((str_iff u t).0 h)
is_text_str (some _) t h = absurd (ground arith)

err_signature :
    (c : Crypto) (o : Option Json) (s : String) (x : AcrError)
    → signature_fits c o s ≡ err x
    → (v : Json) × (o ≡ some v) × (truthy v ≡ true) × (is_ascii (text_of c v) && is_ascii s ≡ false)
unfolding signature_fits
err_signature c none s x h = absurd (ground arith)
err_signature c (some v) s x h = (v, refl, ground arith, ground arith)

pub linked-IsSealed :
    (c : Crypto) (index : ℕ) (previous : Option String) (e : Fields) (h : String)
    → check_event c index previous e ≡ ok (linked h)
    → (h ≡ hash_of c e) × IsSealed c previous e
unfolding check_event
linked-IsSealed c index previous e h p = elim (Option-cases (integrity_of e)) [
  | inl absent ↦ absurd (ground arith)
  | inr (i, named) ↦ (
    ground arith,
    (
      i,
      named,
      is_text_str (get "payload_sha256" i) (hash_of c e) (ground arith),
      ground arith,
      ground arith,
    ),
  )
]

pub err-IsGarbled :
    (c : Crypto) (index : ℕ) (previous : Option String) (e : Fields) (x : AcrError)
    → check_event c index previous e ≡ err x
    → IsGarbled c previous e
unfolding check_event
err-IsGarbled c index previous e x p = elim (Option-cases (integrity_of e)) [
  | inl absent ↦ absurd (ground arith)
  | inr (i, named) ↦ (
    i,
    named,
    is_text_str (get "payload_sha256" i) (hash_of c e) (ground arith),
    ground arith,
    err_signature c (get "record_signature" i) (sign_payload_hash c (hash_of c e) previous) x
        (ground arith),
  )
]
