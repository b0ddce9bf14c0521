-- ===== src/Operators/Keys/Revoked.antt =====
-- A key that was revoked: no active row has its hash.
use acr_framework.Prelude.{
  String, ◌≡◌, refl, sym, ◌∙◌, inl, inr, Bool, true, false, none, some, List, [], ◌∷◌, arith, ◌==◌,
  str_iff, All, Bool-cases, is_empty, where_rows,
}
use mathlib.Core.Path.{subst}
use acr_framework.Prelude.Table.{All-update, find, update, key-find, find-update}
use acr_framework.Errors.{ok}
use acr_framework.Operators.Keys.{
  OperatorCredential, credential_key, clashes, unique_hash, answers_to, find_operator_key_by_hash,
}

-- No active row has the hash, and the row of the revoked key still has it.
pub record IsRevoked (id h : String) (rows : List OperatorCredential) : Type 0 where
  pub dead : All (λ r. (r.key_hash == h) ≡ true → r.is_active ≡ false) rows
  pub kept : (r : OperatorCredential) × (find credential_key id rows ≡ some r) × (r.key_hash ≡ h)

-- A row that is found and passes a test is selected by it.
selected :
    (p : OperatorCredential → Bool) (id : String) (rows : List OperatorCredential)
    (r : OperatorCredential)
    → find credential_key id rows ≡ some r
    → p r ≡ true
    → is_empty (where_rows p rows) ≡ false
unfolding find where_rows
selected p id [] r h q = absurd (ground arith)
selected p id (x ∷ rows) r h q = elim (Bool-cases (x.key_id == id)) [
  | inl here ↦
      let same : x ≡ r = ground arith in
      let q' = subst (λ y. p y ≡ true) (sym same) q in ground arith
  | inr there ↦ let ih = selected p id rows r (ground arith) q in ground arith
]

-- Its hash is taken for every other identifier.
pub taken :
    (id id' h : String) (rows : List OperatorCredential)
    → IsRevoked id h rows
    → (id' == id) ≡ false
    → unique_hash id' h rows ≡ false
unfolding unique_hash
taken id id' h rows v other =
    let (r, found, same) = v.kept in
    selected (clashes id' h) id rows r found (
      ground (
        arith,
        key-find credential_key id rows found,
        str_iff r.key_hash h,
        str_iff r.key_id id',
        str_iff id' id,
      ))

unanswered :
    (h : String) (rows : List OperatorCredential)
    → All (λ r. (r.key_hash == h) ≡ true → r.is_active ≡ false) rows
    → where_rows (answers_to h) rows ≡ []
unfolding where_rows
unanswered h [] v = refl
unanswered h (r ∷ rows) v = let off = v.0 in ground (arith, unanswered h rows v.1, off)

-- A change of one row that leaves its hash, and activates nothing.
pub quiet-IsRevoked :
    (id h k : String) (f : OperatorCredential → OperatorCredential) (rows : List OperatorCredential)
    → ((r : OperatorCredential) → credential_key (f r) ≡ credential_key r)
    → ((r : OperatorCredential) → (f r).key_hash ≡ r.key_hash)
    → ((r : OperatorCredential) → r.is_active ≡ false → (f r).is_active ≡ false)
    → IsRevoked id h rows
    → IsRevoked id h (update credential_key k f rows)
quiet-IsRevoked id h k f rows key hash off v = record {
  dead =
      All-update credential_key (λ r. (r.key_hash == h) ≡ true → r.is_active ≡ false) k f rows
        (λ r d e. off r (d (subst (λ t. (t == h) ≡ true) (hash r) e))) v.dead;
  kept = after v.kept;
}
  where
    after :
        (r : OperatorCredential) × (find credential_key id rows ≡ some r) × (r.key_hash ≡ h)
        → (r : OperatorCredential) × (find credential_key id (update credential_key k f rows)
            ≡ some r)
          × (r.key_hash ≡ h)
    after (r, found, same) = elim (Bool-cases (k == id)) [
      | inl e ↦
          (f r, find-update credential_key f key k id rows ∙ rw (e, found) refl, hash r ∙ same)
      | inr e ↦ (r, find-update credential_key f key k id rows ∙ rw (e, found) refl, same)
    ]

pub find-IsRevoked :
    (id h : String) (rows : List OperatorCredential)
    → IsRevoked id h rows
    → find_operator_key_by_hash h rows ≡ ok none
unfolding find_operator_key_by_hash
find-IsRevoked id h rows v = rw (unanswered h rows v.dead) refl
