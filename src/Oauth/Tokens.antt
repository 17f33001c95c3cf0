-- ===== src/Oauth/Tokens.antt =====
-- Which tokens the middleware accepts.
use mathlib.Core.List.{Memᴰ}
use mathlib.Core.List.Memᴰ.{head, tail}
use rancher_ai_mcp.Prelude.{
  String, ◌≡◌, refl, ap, sym, ◌∙◌, ◌↔◌, inl, inr, true, Bool-cases, Option, none, some, List, [],
  ◌∷◌, map, Result, ok, err, Result-cases, str_eq, eq_iff, eq_refl, any, All, arith,
}
use rancher_ai_mcp.Oauth.{
  OauthConfig, Refusal, Item, text, no_text, Claim, items, no_list, Token, Packages, bearer_token,
  token_scopes, all_contained, check_scopes, validate_token_scopes, validate_claims, validate_token,
  parser_options, validate_jwt,
}

-- The scopes are a list of strings that holds every supported one.
pub record HasScopes (supported : List String) (claim : Claim) : Type 0 where
  pub scopes : List String
  pub listed : claim ≡ items (map text scopes)
  pub held : All (λ (scope : String). Memᴰ scope scopes) supported

-- The library accepts the token with the key set, for the issuer, and its claims hold the scopes.
pub record IsValidToken {Jwks : Type 0} (x : Packages Jwks) (c : OauthConfig Jwks) (jwks : Jwks)
    (bearer_token : String) : Type 0 where
  pub token : Token
  pub claims : String → Claim
  pub parsed : x.parse jwks (parser_options x c) bearer_token ≡ some token
  pub valid : token.valid ≡ true
  pub mapped : token.claims ≡ some claims
  pub scoped : HasScopes c.supported_scopes (claims "scope")

member :
    (scope : String) (scopes : List String) → any (str_eq scope) scopes ≡ true → Memᴰ scope scopes
member scope [] h = cc
member scope (s ∷ scopes) h = elim (Bool-cases (str_eq scope s)) [
  | inl e ↦ head ((eq_iff scope s).0 e)
  | inr e ↦ tail (member scope scopes (rw e at h))
]

member-any :
    (scope : String) (scopes : List String) → Memᴰ scope scopes → any (str_eq scope) scopes ≡ true
member-any scope [] m = elim m [ ]
member-any scope (s ∷ scopes) (head e) = rw (sym e, eq_refl scope) refl
member-any scope (s ∷ scopes) (tail m) = ground (arith, member-any scope scopes m)

all_contained-All :
    (scopes supported : List String)
    → all_contained scopes supported ≡ true
    → All (λ (scope : String). Memᴰ scope scopes) supported
unfolding all_contained
all_contained-All scopes [] h = tt
all_contained-All scopes (scope ∷ supported) h =
    (member scope scopes (ground arith), all_contained-All scopes supported (ground arith))

All-all_contained :
    (scopes supported : List String)
    → All (λ (scope : String). Memᴰ scope scopes) supported
    → all_contained scopes supported ≡ true
unfolding all_contained
All-all_contained scopes [] h = refl
All-all_contained scopes (scope ∷ supported) (m, h) =
    rw (member-any scope scopes m, All-all_contained scopes supported h) refl

token_scopes-text : (scopes : List String) → token_scopes (map text scopes) ≡ ok scopes
unfolding token_scopes
token_scopes-text [] = refl
token_scopes-text (scope ∷ scopes) = rw (token_scopes-text scopes) refl

token_scopes-ok :
    (l : List Item) (scopes : List String) → token_scopes l ≡ ok scopes → l ≡ map text scopes
unfolding token_scopes
token_scopes-ok [] scopes h =
    let same : [] ≡ scopes = cc in ap (λ (l : List String). map text l) same
token_scopes-ok (no_text ∷ rest) scopes h = cc
token_scopes-ok (text scope ∷ rest) scopes h = elim (Result-cases (token_scopes rest)) [
  | inl (e, failed) ↦ cc (rw failed at h)
  | inr (others, found) ↦
      let same : scope ∷ others ≡ scopes = cc (rw found at h) in
      ap (λ (l : List Item). text scope ∷ l) (token_scopes-ok rest others found)
      ∙ ap (λ (l : List String). map text l) same
]

module _ {Jwks : Type 0} (x : Packages Jwks) (c : OauthConfig Jwks) where
  check_scopes-ok :
      (l : List Item) (r : Result Refusal (List String))
      → token_scopes l ≡ r
      → check_scopes x c r ≡ ok tt
      → HasScopes c.supported_scopes (items l)
  unfolding check_scopes
  check_scopes-ok l (err e) same h = cc
  check_scopes-ok l (ok scopes) same h =
      elim (Bool-cases (all_contained scopes c.supported_scopes)) [
        | inl e ↦ record {
          scopes = scopes;
          listed = ap items (token_scopes-ok l scopes same);
          held = all_contained-All scopes c.supported_scopes e;
        }
        | inr e ↦ cc (rw e at h)
      ]

  validate_token_scopes-ok :
      (claim : Claim) → validate_token_scopes x c claim ≡ ok tt → HasScopes c.supported_scopes claim
  unfolding validate_token_scopes
  validate_token_scopes-ok no_list h = cc
  validate_token_scopes-ok (items l) h = check_scopes-ok l (token_scopes l) refl h

  HasScopes-validate_token_scopes :
      (claim : Claim) → HasScopes c.supported_scopes claim → validate_token_scopes x c claim ≡ ok tt
  unfolding validate_token_scopes check_scopes
  HasScopes-validate_token_scopes claim h =
      rw
        (h.listed, token_scopes-text h.scopes, All-all_contained h.scopes c.supported_scopes h.held)
        refl

  validate_claims-ok :
      (jwks : Jwks) (bearer_token : String) (token : Token) (claims : Option (String → Claim))
      → x.parse jwks (parser_options x c) bearer_token ≡ some token
      → token.valid ≡ true
      → token.claims ≡ claims
      → validate_claims x c claims ≡ ok tt
      → IsValidToken x c jwks bearer_token
  unfolding validate_claims
  validate_claims-ok jwks bearer_token token none parsed valid same h = cc
  validate_claims-ok jwks bearer_token token (some claims) parsed valid same h = record {
    token = token;
    claims = claims;
    parsed = parsed;
    valid = valid;
    mapped = same;
    scoped = validate_token_scopes-ok (claims "scope") h;
  }

  validate_token-ok :
      (jwks : Jwks) (bearer_token : String) (parsed : Option Token)
      → x.parse jwks (parser_options x c) bearer_token ≡ parsed
      → validate_token x c parsed ≡ ok tt
      → IsValidToken x c jwks bearer_token
  unfolding validate_token
  validate_token-ok jwks bearer_token none same h = cc
  validate_token-ok jwks bearer_token (some token) same h = elim (Bool-cases token.valid) [
    | inl e ↦ validate_claims-ok jwks bearer_token token token.claims same e refl (rw e at h)
    | inr e ↦ cc (rw e at h)
  ]

  pub validate_jwt_iff :
      (jwks : Jwks) (bearer_token : String)
      → (validate_jwt x c jwks bearer_token ≡ ok tt) ↔ IsValidToken x c jwks bearer_token
  unfolding validate_jwt validate_token validate_claims
  validate_jwt_iff jwks bearer_token = (
    λ h. validate_token-ok jwks bearer_token _ refl h,
    λ v.
        rw (v.parsed, v.valid, v.mapped)
          (HasScopes-validate_token_scopes (v.claims "scope") v.scoped),
  )
