-- ===== src/Operators/Oidc.antt =====
-- common/oidc.py: the token of an identity provider, and the roles that its claims stand for. The
-- request for the provider's keys is a parameter.
use acr_framework.Prelude.{
  ℕ, String, Bool, Option, none, some, List, [], ◌∷◌, ◌++◌, ◌==◌, if◌then◌else◌,
}
use acr_framework.Errors.{Result, ok, err, unauthorized_operator, guard, ◌>>=◌, ◌>>◌}
use acr_framework.Json.{Json, null, str, arr, obj, Items, nil, item, Fields, get, truthy}
use acr_framework.Identity.Token.{Jwt, Decoded, claims, expired, invalid, decode_jwt}

-- `oidc_role_mapping`, from a role of the provider to roles of the control plane.
abbrev pub RoleMapping : Type 0
RoleMapping = List (String × List String)

pub record OidcConfig : Type 0 where
  pub oidc_enabled : Bool
  pub oidc_client_id : String
  pub oidc_issuer : String
  pub oidc_roles_claim : String
  pub oidc_subject_claim : String
  pub role_mapping : RoleMapping
  pub operator_session_secret : String

-- What the libraries and the provider do: the `kid` in the header of a token, if the token has a
-- header; the keys of the provider, or the exception of the request; the text of a value.
pub record Provider : Type 0 where
  pub jwt : Jwt
  pub kid_of : String → Option Json
  pub jwks : Result Items
  pub key_of : Fields → Option String
  pub same : Json → Json → Bool
  pub to_text : Json → String

pub record OidcPrincipal : Type 0 where
  pub subject : String
  pub roles : List String

-- The first key of the provider with this `kid`.
select_key : Provider → Json → Items → Option Fields
select_key p kid nil = none
select_key p kid (item (obj d) rest) =
    let later = select_key p kid rest in
    elim (get "kid" d) [
      | some k ↦ if p.same k kid then some d else later
      | none ↦ if p.same null kid then some d else later
    ]
select_key p kid (item _ rest) = select_key p kid rest

-- A failure of the library, or a key that it cannot read.
claims_or_raise : Decoded → Result Fields
claims_or_raise (claims d) = ok d
claims_or_raise expired = err unauthorized_operator
claims_or_raise invalid = err unauthorized_operator

text_of : Provider → Json → String
text_of p (str s) = s
text_of p v = p.to_text v

texts_in : Provider → Items → List String
unfolding text_of
texts_in p nil = []
texts_in p (item v vs) = text_of p v ∷ texts_in p vs

pub extract_claim_values : Provider → String → Fields → List String
unfolding texts_in
extract_claim_values p name d = elim (get name d) [
  | some (str s) ↦ s ∷ []
  | some (arr vs) ↦ texts_in p vs
  | _ ↦ []
]

-- `mapping.get(role, [])`
mapped_role : String → RoleMapping → List String
mapped_role role [] = []
mapped_role role ((r, roles) ∷ rest) = if r == role then roles else mapped_role role rest

mapped_roles : RoleMapping → List String → List String
unfolding mapped_role
mapped_roles m [] = []
mapped_roles m (role ∷ roles) = mapped_role role m ++ mapped_roles m roles

-- A set of roles is a list; its order and repetitions are not looked at.
pub map_oidc_roles : OidcConfig → Provider → Fields → List String
unfolding extract_claim_values mapped_roles
map_oidc_roles c p d =
    let external = extract_claim_values p c.oidc_roles_claim d in
    elim c.role_mapping [ [] ↦ external | m ∷ ms ↦ mapped_roles (m ∷ ms) external ]

-- `claims.get(a) or claims.get("sub")`
subject_claim : OidcConfig → Fields → Json
unfolding get truthy
subject_claim c d =
    let name = if c.oidc_subject_claim == "" then "email" else c.oidc_subject_claim in
    elim (get name d) [
      | some v ↦ if truthy v then v else elim (get "sub" d) [ some w ↦ w | none ↦ null ]
      | none ↦ elim (get "sub" d) [ some w ↦ w | none ↦ null ]
    ]

or_raise : {A : Type 0} → Option A → Result A
or_raise none = err unauthorized_operator
or_raise (some a) = ok a

-- Without a nonce, as operators are authenticated.
pub validate_oidc_token : OidcConfig → Provider → ℕ → String → Result OidcPrincipal
unfolding or_raise select_key claims_or_raise subject_claim map_oidc_roles text_of
validate_oidc_token c p now token = do
  guard c.oidc_enabled unauthorized_operator
  kid ← or_raise (p.kid_of token)
  keys ← p.jwks
  found ← or_raise (select_key p kid keys)
  key ← or_raise (p.key_of found)
  d ← claims_or_raise (
      decode_jwt p.jwt now token key ("RS256" ∷ "ES256" ∷ []) (some c.oidc_client_id)
        (some c.oidc_issuer))
  guard (truthy (subject_claim c d)) unauthorized_operator
  ok (record { subject = text_of p (subject_claim c d); roles = map_oidc_roles c p d })

-- The claims of an operator's session; the caller takes every exception for an invalid session.
pub decode_signed_payload : OidcConfig → Provider → ℕ → String → Result Fields
unfolding claims_or_raise
decode_signed_payload c p now token =
    claims_or_raise (decode_jwt p.jwt now token c.operator_session_secret ("HS256" ∷ []) none none)
