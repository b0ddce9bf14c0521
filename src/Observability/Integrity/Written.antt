-- ===== src/Observability/Integrity/Written.antt =====
-- One event as it is written: its integrity entry seals it and does not change its hash.
use mathlib.Core.Path.{subst}
use acr_framework.Prelude.{
  String, ◌≡◌, refl, sym, ap, ◌∙◌, true, false, Option, none, some, arith, ◌==◌, str_iff, str_refl,
}
use acr_framework.Prelude.Text.{is_ascii}
use acr_framework.Errors.{ok}
use acr_framework.Json.{Json, str, obj, Fields, end, field, get, set, truthy}
use acr_framework.Json.Dict.{get-set}
use acr_framework.Observability.Integrity.{
  Crypto, pop, dict_at, remove_integrity_metadata, integrity_of, integrity_entry, sign_payload_hash,
  extract_payload_hash, is_text_or_none, signature_fits, seal, text_or_null,
}
use acr_framework.Observability.Integrity.Sealed.{hash_of, IsSealed}

-- A digest and a code in hexadecimal digits are not empty, and a code is an ASCII text.
pub record IsDigest (c : Crypto) : Type 0 where
  pub hash_given : (d : Fields) → (c.payload_sha256 d == "") ≡ false
  pub code_given : (s : String) → (c.hmac s == "") ≡ false
  pub code_ascii : (s : String) → is_ascii (c.hmac s) ≡ true

set-set : (k : String) (v w : Json) (d : Fields) → set k v (set k w d) ≡ set k v d
unfolding set
set-set k v w end = ground (arith, str_refl k)
set-set k v w (field j u d) = ground (arith, str_refl k, str_iff j k, set-set k v w d)

pop-set : (k : String) (v : Json) (d : Fields) → pop k (set k v d) ≡ pop k d
unfolding set pop
pop-set k v end = ground (arith, str_refl k)
pop-set k v (field j u d) = ground (arith, str_refl k, str_iff j k, pop-set k v d)

-- An event as it is written: its metadata with the entry.
abbrev pub written : Fields → Fields → Fields → Fields
written payload m entry = set "metadata" (obj (set "integrity" (obj entry) m)) payload

metadata_written :
    (payload m entry : Fields)
    → dict_at "metadata" (written payload m entry) ≡ some (set "integrity" (obj entry) m)
metadata_written payload m entry =
    rw (get-set "metadata" "metadata" (obj (set "integrity" (obj entry) m)) payload) refl

integrity_in :
    (e m : Fields) → dict_at "metadata" e ≡ some m → integrity_of e ≡ dict_at "integrity" m
integrity_in e m h = ground arith

integrity_written : (payload m entry : Fields) → integrity_of (written payload m entry) ≡ some entry
integrity_written payload m entry =
    integrity_in (written payload m entry) (set "integrity" (obj entry) m)
      (metadata_written payload m entry)
    ∙ rw (get-set "integrity" "integrity" (obj entry) m) refl

removed :
    (payload m : Fields)
    → dict_at "metadata" payload ≡ some m
    → remove_integrity_metadata payload ≡ set "metadata" (obj (pop "integrity" m)) payload
unfolding remove_integrity_metadata
removed payload m h = ground arith

-- The entry does not count in the hash.
stripped_written :
    (payload m entry : Fields)
    → dict_at "metadata" payload ≡ some m
    → remove_integrity_metadata (written payload m entry) ≡ remove_integrity_metadata payload
stripped_written payload m entry h =
    removed (written payload m entry) (set "integrity" (obj entry) m)
      (metadata_written payload m entry)
    ∙ ap (λ d. set "metadata" (obj d) (written payload m entry)) (pop-set "integrity" (obj entry) m)
    ∙ set-set "metadata" (obj (pop "integrity" m)) (obj (set "integrity" (obj entry) m)) payload
    ∙ sym (removed payload m h)

-- The entry of a payload that follows a hash.
abbrev pub entry_after : Crypto → Option String → Fields → Fields
entry_after c previous payload = integrity_entry c (hash_of c payload) previous

pub seal-written :
    (c : Crypto) (previous : Option String) (payload m : Fields)
    → dict_at "metadata" payload ≡ some m
    → seal c previous payload ≡ ok (written payload m (entry_after c previous payload))
unfolding seal
seal-written c previous payload m h = ground arith

named_before :
    (previous : Option String) → is_text_or_none (some (text_or_null previous)) previous ≡ true
named_before none = refl
named_before (some s) = str_refl s

text_fits :
    (c : Crypto) (s : String)
    → (s == "") ≡ false
    → is_ascii s ≡ true
    → signature_fits c (some (str s)) s ≡ ok true
unfolding truthy signature_fits
text_fits c s given ascii = ground (arith, str_refl s)

code_fits :
    (c : Crypto) (hash : String) (previous : Option String)
    → IsDigest c
    → signature_fits c
        (some (str (sign_payload_hash c hash previous)))
        (sign_payload_hash c hash previous)
      ≡ ok true
unfolding sign_payload_hash
code_fits c hash previous g = text_fits c _ (g.code_given _) (g.code_ascii _)

pub written-IsSealed :
    (c : Crypto) (previous : Option String) (payload m : Fields)
    → IsDigest c
    → dict_at "metadata" payload ≡ some m
    → IsSealed c previous (written payload m (entry_after c previous payload))
unfolding get
written-IsSealed c previous payload m g h =
    let entry = entry_after c previous payload in
    subst
      (λ hash.
        (i : Fields) × (integrity_of (written payload m entry) ≡ some i)
        × (get "payload_sha256" i ≡ some (str hash))
        × (is_text_or_none (get "previous_event_sha256" i) previous ≡ true)
        × (signature_fits c (get "record_signature" i) (sign_payload_hash c hash previous)
            ≡ ok true))
      (sym (ap c.payload_sha256 (stripped_written payload m entry h)))
      (
        entry,
        integrity_written payload m entry,
        refl,
        named_before previous,
        code_fits c (hash_of c payload) previous g,
      )

extract_in :
    (c : Crypto) (e m i : Fields) (hash : String)
    → dict_at "metadata" e ≡ some m
    → dict_at "integrity" m ≡ some i
    → get "payload_sha256" i ≡ some (str hash)
    → (hash == "") ≡ false
    → extract_payload_hash c e ≡ some hash
unfolding extract_payload_hash truthy
extract_in c e m i hash hm hi hp given = ground arith

-- What the next event will name.
pub extract_written :
    (c : Crypto) (previous : Option String) (payload m : Fields)
    → IsDigest c
    → dict_at "metadata" payload ≡ some m
    → extract_payload_hash c (written payload m (entry_after c previous payload))
      ≡ some (hash_of c (written payload m (entry_after c previous payload)))
unfolding get
extract_written c previous payload m g h =
    let entry = entry_after c previous payload in
    extract_in c (written payload m entry) (set "integrity" (obj entry) m) entry (hash_of c payload)
      (metadata_written payload m entry) (rw (get-set "integrity" "integrity" (obj entry) m) refl)
      refl (g.hash_given (remove_integrity_metadata payload))
    ∙ sym (ap (λ d. some (c.payload_sha256 d)) (stripped_written payload m entry h))
