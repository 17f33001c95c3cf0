-- ===== src/Confirm/Toy.antt =====
-- A codec that meets the laws of `Issue`, a gate, an operation and a token for it: data for the
-- tests.
use rancher_ai_mcp.Prelude.{
  ◌+◌, ◌-◌, ◌≡◌, ◌≢◌, refl, ap, inl, inr, Bool, true, ◌&&◌, none, some, [], ◌∷◌, ◌++◌, map, arith,
  All, str_eq, eq_iff, if◌then◌else◌, ◌==◌, ok, Bool-cases,
}
use rancher_ai_mcp.Confirm.{
  Bytes, Operation, TokenBody, Codec, Gate, bytes_eq, issue_token, payload_hash, or_else,
  token_body,
}
use rancher_ai_mcp.Confirm.Approval.{Elicit, text}
use rancher_ai_mcp.Confirm.Issue.{IsCodec}

abbrev pub demo : TokenBody
demo = record {
  tool = "deleteKubernetesResource";
  cluster = "c1";
  namespace = "ns";
  kind = "pod";
  name = "web";
  payload_hash = "";
  nonce = "n";
  expiry = 601;
}

abbrev pub op : Operation
op = record {
  tool = "deleteKubernetesResource";
  cluster = "c1";
  namespace = "ns";
  kind = "pod";
  name = "web";
  payload = [];
}

pub body_eq : TokenBody → TokenBody → Bool
body_eq a b =
    str_eq a.tool b.tool
    && (str_eq a.cluster b.cluster
        && (str_eq a.namespace b.namespace
            && (str_eq a.kind b.kind
                && (str_eq a.name b.name
                    && (str_eq a.payload_hash b.payload_hash
                        && (str_eq a.nonce b.nonce && a.expiry == b.expiry))))))

body_eq-eq : (a : TokenBody) → body_eq a demo ≡ true → a ≡ demo
unfolding body_eq
body_eq-eq a h = ground (
  arith,
  eq_iff a.tool demo.tool,
  eq_iff a.cluster demo.cluster,
  eq_iff a.namespace demo.namespace,
  eq_iff a.kind demo.kind,
  eq_iff a.name demo.name,
  eq_iff a.payload_hash demo.payload_hash,
  eq_iff a.nonce demo.nonce,
)

abbrev pub toy : Codec
toy = record {
  sha256_hex = λ b. "h";
  hex = λ b. "n";
  hmac_sha256 = λ key raw. key ++ raw;
  base64_encode = map (λ c. c + 47);
  base64_decode = λ b. some (map (λ c. c - 47) b);
  marshal = λ body. if body_eq body demo then some (1 ∷ []) else none;
  unmarshal = λ raw. if bytes_eq raw (1 ∷ []) then some demo else none;
}

toy_decode : (b : Bytes) → map (λ c. c - 47) (map (λ c. c + 47) b) ≡ b
toy_decode [] = refl
toy_decode (c ∷ b) = rw (toy_decode b) (ap (λ n. n ∷ b) (omega arith))

toy_no_dot : (b : Bytes) → All (λ c. c ≢ b'.') (map (λ c. c + 47) b)
toy_no_dot [] = tt
toy_no_dot (c ∷ b) = (omega arith, toy_no_dot b)

toy_unmarshal :
    (body : TokenBody) (raw : Bytes) → toy.marshal body ≡ some raw → toy.unmarshal raw ≡ some body
unfolding bytes_eq
toy_unmarshal body raw h = elim (Bool-cases (body_eq body demo)) [
  | inl same ↦ let one : raw ≡ 1 ∷ [] = cc (rw same at h) in rw (one, body_eq-eq body same) refl
  | inr other ↦ cc (rw other at h)
]

abbrev pub gate : Gate
gate = record { key = 7 ∷ []; consumed = []; token_ttl = 600000000000 }

-- The token that `gate` issues for `op` at second 1.
abbrev pub token : Bytes
token = 48 ∷ b'.' ∷ 54 ∷ 48 ∷ []

pub issued : issue_token toy gate op (some []) 1000000000 ≡ ok token
unfolding issue_token or_else payload_hash token_body body_eq
issued = refl

pub toy-IsCodec : IsCodec toy
toy-IsCodec = record {
  decode-encode = λ b. ap some (toy_decode b);
  encode_no_dot = toy_no_dot;
  unmarshal-marshal = toy_unmarshal;
  hash_ne_empty = λ b. ground (arith, eq_iff "h" "");
}

abbrev pub typed : Elicit
typed params =
    some (some (record { action = "accept"; content = ("confirmName", text "web") ∷ [] }))
