-- ===== src/Confirm/Issue.antt =====
-- What an issued token is good for: `IssueToken` and then `RequireToken` of
-- pkg/confirm/confirm.go.
use native.Mathlib.Decide.{ℕ_discrete}
use rancher_ai_mcp.Prelude.{
  ℕ, ◌+◌, ◌≤◌, ◌≡◌, ◌≢◌, refl, ap, sym, ◌⊎◌, inl, inr, true, Option, none, some, [], ◌∷◌, ◌++◌,
  arith, All, eq_iff, eq_refl, ok, ◌>>=◌,
}
use rancher_ai_mcp.Prelude.Dict
use rancher_ai_mcp.Confirm.{
  Bytes, Operation, TokenBody, Codec, Gate, unix, split_dots, or_else, bytes_eq, payload_hash,
  token_body, issue_token, open_token, matches, validate, check_token, require_token, token_invalid,
}
use rancher_ai_mcp.Confirm.SingleUse.{Call, consume_fresh, check_token-opened, accepted_body}

-- What the documentation of base64, JSON and SHA-256 promises.
pub record IsCodec (codec : Codec) : Type 0 where
  pub decode-encode : (b : Bytes) → codec.base64_decode (codec.base64_encode b) ≡ some b
  -- '.' is not in the URL-safe alphabet
  pub encode_no_dot : (b : Bytes) → All (λ c. c ≢ b'.') (codec.base64_encode b)
  pub unmarshal-marshal :
      (body : TokenBody) (raw : Bytes)
      → codec.marshal body ≡ some raw
      → codec.unmarshal raw ≡ some body
  -- 64 hexadecimal digits
  pub hash_ne_empty : (b : Bytes) → codec.sha256_hex b ≢ ""

-- Two different payloads with one SHA-256 hash.
pub record IsCollision (codec : Codec) (p q : Bytes) : Type 0 where
  pub differ : p ≢ q
  pub same_hash : codec.sha256_hex p ≡ codec.sha256_hex q

split_dots_no_dot : (s : Bytes) → All (λ c. c ≢ b'.') s → split_dots s ≡ s ∷ []
unfolding split_dots
split_dots_no_dot [] h = refl
split_dots_no_dot (c ∷ s) (h, hs) = rw (split_dots_no_dot s hs) (ground (arith))

split_dots-append :
    (a b : Bytes)
    → All (λ c. c ≢ b'.') a
    → All (λ c. c ≢ b'.') b
    → split_dots (a ++ b'.' ∷ b) ≡ a ∷ b ∷ []
unfolding split_dots
split_dots-append [] b ha hb = rw (split_dots_no_dot b hb) refl
split_dots-append (c ∷ a) b (h, ha) hb = rw (split_dots-append a b ha hb) (ground (arith))

bytes_eq_refl : (a : Bytes) → bytes_eq a a ≡ true
unfolding bytes_eq
bytes_eq_refl [] = refl
bytes_eq_refl (x ∷ xs) = ground (arith, bytes_eq_refl xs)

module _ (codec : Codec) (laws : IsCodec codec) where
  open_sealed :
      (key raw : Bytes)
      → open_token codec key
          (codec.base64_encode raw ++ b'.' ∷ codec.base64_encode (codec.hmac_sha256 key raw))
        ≡ or_else (codec.unmarshal raw) token_invalid
  unfolding open_token
  open_sealed key raw =
      let mac = codec.hmac_sha256 key raw in
      rw
        (
          split_dots-append _ _ (laws.encode_no_dot raw) (laws.encode_no_dot mac),
          laws.decode-encode raw,
          laws.decode-encode mac,
          bytes_eq_refl mac,
        )
        refl

  marshal-cases :
      (g : Gate) (op : Operation) (nonce : Bytes) (t : ℕ) (marshalled : Option Bytes)
      (token : Bytes)
      → codec.marshal (token_body codec g op nonce t) ≡ marshalled
      → issue_token codec g op (some nonce) t ≡ ok token
      → open_token codec g.key token ≡ ok (token_body codec g op nonce t)
  unfolding issue_token or_else
  marshal-cases g op nonce t none token e h = cc (rw (e, issue_token) at h)
  marshal-cases g op nonce t (some raw) token e h =
      let sealed : codec.base64_encode raw
            ++ b'.' ∷ codec.base64_encode (codec.hmac_sha256 g.key raw)
          ≡ token =
        cc (rw (e, issue_token) at h) in
      rw (← sealed, open_sealed g.key raw, laws.unmarshal-marshal _ raw e) refl

  -- An issued token opens, under the same key, to the body that was signed.
  open-issue :
      (g : Gate) (op : Operation) (nonce : Bytes) (t : ℕ) (token : Bytes)
      → issue_token codec g op (some nonce) t ≡ ok token
      → open_token codec g.key token ≡ ok (token_body codec g op nonce t)
  open-issue g op nonce t token h = marshal-cases g op nonce t _ token refl h

  matches_self :
      (g : Gate) (op : Operation) (nonce : Bytes) (t : ℕ)
      → matches codec (token_body codec g op nonce t) op ≡ true
  unfolding matches token_body
  matches_self g op nonce t = simp eq_refl

  validate_live :
      (body : TokenBody) (op : Operation) (now : ℕ)
      → unix now ≤ body.expiry
      → matches codec body op ≡ true
      → validate codec body op now ≡ ok body
  unfolding validate
  validate_live body op now live fits = ground arith

  -- A token is accepted for the operation that it was issued for, at any time up to the gate's
  -- time to live after its issue, by a gate with the same key that has not seen its nonce.
  pub require-issue :
      (g g' : Gate) (op : Operation) (nonce : Bytes) (t now now' : ℕ) (token : Bytes)
      → issue_token codec g op (some nonce) t ≡ ok token
      → g'.key ≡ g.key
      → Dict.get g'.consumed (codec.hex nonce) ≡ none
      → now ≤ t + g.token_ttl
      → (require_token codec g' op token now now').1 ≡ ok tt
  unfolding require_token check_token token_body
  require-issue g g' op nonce t now now' token issued key fresh live =
      let body = token_body codec g op nonce t in
      let opened : open_token codec g'.key token ≡ ok body =
        rw key (open-issue g op nonce t token issued) in
      let valid = validate_live body op now (omega arith) (matches_self g op nonce t) in
      rw (opened, ◌>>=◌, valid, require_token) (rw (consume_fresh g' body now' fresh) refl)

-- The two operations aim at the same object with the same tool.
pub record IsSameTarget (a b : Operation) : Type 0 where
  pub tool : a.tool ≡ b.tool
  pub cluster : a.cluster ≡ b.cluster
  pub namespace : a.namespace ≡ b.namespace
  pub kind : a.kind ≡ b.kind
  pub name : a.name ≡ b.name

payload_dec : (p q : Bytes) → Dec (p ≡ q)
payload_dec = hlevel ℕ_discrete

module _ (codec : Codec) (laws : IsCodec codec) where
  payload_of_hash :
      (p q : Bytes) → payload_hash codec p ≡ payload_hash codec q → (p ≡ q) ⊎ IsCollision codec p q
  unfolding payload_hash
  payload_of_hash [] [] h = inl refl
  payload_of_hash [] (y ∷ q) h = absurd (laws.hash_ne_empty (y ∷ q) (sym h))
  payload_of_hash (x ∷ p) [] h = absurd (laws.hash_ne_empty (x ∷ p) h)
  payload_of_hash (x ∷ p) (y ∷ q) h = elim (payload_dec (x ∷ p) (y ∷ q)) [
    | yes same ↦ inl same
    | no differ ↦ inr (record { differ = differ; same_hash = h })
  ]

  matches-eq :
      (body : TokenBody) (op : Operation)
      → matches codec body op ≡ true
      → (body.tool ≡ op.tool)
        × (body.cluster ≡ op.cluster)
        × (body.namespace ≡ op.namespace)
        × (body.kind ≡ op.kind)
        × (body.name ≡ op.name)
        × (body.payload_hash ≡ payload_hash codec op.payload)
  unfolding matches
  matches-eq body op h = ground (
    arith,
    eq_iff body.tool op.tool,
    eq_iff body.cluster op.cluster,
    eq_iff body.namespace op.namespace,
    eq_iff body.kind op.kind,
    eq_iff body.name op.name,
    eq_iff body.payload_hash (payload_hash codec op.payload),
  )

  -- A token that was issued for one operation is accepted for no other: not for another tool,
  -- cluster, namespace, kind or name, and for another payload only if the two payloads are a
  -- collision of SHA-256.
  pub token_binding :
      (g g' : Gate) (op other : Operation) (nonce : Bytes) (t now now' : ℕ) (token : Bytes)
      → issue_token codec g op (some nonce) t ≡ ok token
      → g'.key ≡ g.key
      → (require_token codec g' other token now now').1 ≡ ok tt
      → IsSameTarget other op
        × ((other.payload ≡ op.payload) ⊎ IsCollision codec other.payload op.payload)
  unfolding token_body
  token_binding g g' op other nonce t now now' token issued key accepted =
      let c : Call = record { op = other; token = token; now = now; now' = now' } in
      let (body, checked, _) = accepted_body codec g' c accepted in
      let (opened, _, fits) = check_token-opened codec g' c body checked in
      let same : body ≡ token_body codec g op nonce t = cc (
        opened,
        open-issue codec laws g op nonce t token issued,
        ap (λ k. open_token codec k token) key,
      ) in
      let (tool, cluster, namespace, kind, name, hash) =
        matches-eq (token_body codec g op nonce t) other (rw same at fits) in
      (
        record {
          tool = sym tool;
          cluster = sym cluster;
          namespace = sym namespace;
          kind = sym kind;
          name = sym name;
        },
        payload_of_hash other.payload op.payload (sym hash),
      )
