-- ===== src/Confirm.antt =====
-- pkg/confirm/confirm.go: the confirmation gate of the mutating tools.
-- Times are nanoseconds since 1970 (`time.Time`), and a token's expiry is in seconds, as
-- `Unix()` gives it. Each reading of the clock is an argument of the operation that makes it,
-- and so are the random bytes. The mutex makes `consume` one step; `check_token` runs before
-- the lock is taken.
pub mod Approval
mod Sweep
pub mod Issue
pub mod SingleUse
pub mod Toy
mod Tests
use rancher_ai_mcp.Prelude.{
  ℕ, ◌+◌, ◌*◌, ◌/◌, String, Bool, true, false, not, ◌&&◌, Option, none, some, List, [], ◌∷◌, ◌++◌,
  Result, ok, err, ◌>>=◌, ◌>>◌, refuse_unless, if◌then◌else◌, ltb, ◌==◌, str_eq, is_empty,
}
use rancher_ai_mcp.Prelude.Dict
use rancher_ai_mcp.Prelude.Dict.{Dict}

-- Bytes, and texts that the program splits, are lists of codes.
abbrev pub Bytes : Type 0
Bytes = List ℕ

pub data Error : Type 0 where
  token_invalid token_expired token_consumed token_mismatch : Error
  confirmation_unsupported : Error
  nonce_failed marshal_failed : Error

pub record Operation : Type 0 where
  pub tool : String
  pub cluster : String
  pub namespace : String
  pub kind : String
  pub name : String
  pub payload : Bytes

pub record TokenBody : Type 0 where
  pub tool : String
  pub cluster : String
  pub namespace : String
  pub kind : String
  pub name : String
  pub payload_hash : String
  pub nonce : String
  pub expiry : ℕ

-- Go's crypto and encoding packages, which the gate only calls.
pub record Codec : Type 0 where
  pub sha256_hex : Bytes → String
  pub hex : Bytes → String
  pub hmac_sha256 : Bytes → Bytes → Bytes
  pub base64_encode : Bytes → Bytes
  pub base64_decode : Bytes → Option Bytes
  pub marshal : TokenBody → Option Bytes
  pub unmarshal : Bytes → Option TokenBody

pub record Gate : Type 0 where
  pub key : Bytes
  pub consumed : Dict ℕ
  pub token_ttl : ℕ

abbrev pub second : ℕ
second = 1000000000

-- `Time.Unix()`
abbrev pub unix : ℕ → ℕ
unix t = t / second

-- `NewGate`; `none` is a failed read of the random source.
new_gate : Option Bytes → Option Gate
new_gate none = none
new_gate (some key) = some (record { key = key; consumed = []; token_ttl = 600 * second })

-- `strings.Split(s, ".")`
prepend : ℕ → List Bytes → List Bytes
prepend c [] = (c ∷ []) ∷ []
prepend c (part ∷ parts) = (c ∷ part) ∷ parts

pub split_dots : Bytes → List Bytes
unfolding prepend
split_dots [] = [] ∷ []
split_dots (c ∷ s) = let rest = split_dots s in if c == b'.' then [] ∷ rest else prepend c rest

or_else : {A : Type 0} → Option A → Error → Result Error A
or_else none e = err e
or_else (some a) e = ok a

-- `subtle.ConstantTimeCompare(a, b) == 1`
pub bytes_eq : Bytes → Bytes → Bool
bytes_eq [] [] = true
bytes_eq (a ∷ as') (b ∷ bs) = a == b && bytes_eq as' bs
bytes_eq _ _ = false

module _ (codec : Codec) where
  pub payload_hash : Bytes → String
  payload_hash payload = if is_empty payload then "" else codec.sha256_hex payload

  -- The body that `IssueToken` signs.
  pub token_body : Gate → Operation → Bytes → ℕ → TokenBody
  token_body g op nonce now = record {
    tool = op.tool;
    cluster = op.cluster;
    namespace = op.namespace;
    kind = op.kind;
    name = op.name;
    payload_hash = payload_hash op.payload;
    nonce = codec.hex nonce;
    expiry = unix (now + g.token_ttl);
  }

  -- The bytes that `rand.Read` gave, or `none` for its error, and one reading of the clock.
  pub issue_token : Gate → Operation → Option Bytes → ℕ → Result Error Bytes
  issue_token g op random now = do
    nonce ← or_else random nonce_failed
    raw ← or_else (codec.marshal (token_body g op nonce now)) marshal_failed
    ok (codec.base64_encode raw ++ b'.' ∷ codec.base64_encode (codec.hmac_sha256 g.key raw))

  -- The first half of `RequireToken`, up to the decoded body.
  decode_parts : List Bytes → Result Error (Bytes × Bytes)
  decode_parts (body ∷ signature ∷ []) = do
    raw ← or_else (codec.base64_decode body) token_invalid
    sig ← or_else (codec.base64_decode signature) token_invalid
    ok (raw, sig)
  decode_parts _ = err token_invalid

  pub open_token : Bytes → Bytes → Result Error TokenBody
  unfolding decode_parts or_else
  open_token key token = do
    parts ← decode_parts (split_dots token)
    refuse_unless (bytes_eq parts.1 (codec.hmac_sha256 key parts.0)) token_invalid
    or_else (codec.unmarshal parts.0) token_invalid

  pub matches : TokenBody → Operation → Bool
  matches body op =
      str_eq body.tool op.tool
      && (str_eq body.cluster op.cluster
          && (str_eq body.namespace op.namespace
              && (str_eq body.kind op.kind
                  && (str_eq body.name op.name
                      && str_eq body.payload_hash (payload_hash op.payload)))))

  validate : TokenBody → Operation → ℕ → Result Error TokenBody
  validate body op now =
      if ltb body.expiry (unix now)
      then err token_expired
      else if matches body op
      then ok body
      else err token_mismatch

  -- All of `RequireToken` that runs before the lock is taken.
  pub check_token : Gate → Operation → Bytes → ℕ → Result Error TokenBody
  check_token g op token now = do body ← open_token g.key token; validate body op now

-- The sweep of expired nonces.
pub sweep : ℕ → Dict ℕ → Dict ℕ
sweep now [] = []
sweep now ((nonce, expiry) ∷ rest) =
    let kept = sweep now rest in if ltb expiry now then kept else (nonce, expiry) ∷ kept

pub record_nonce : TokenBody → ℕ → Gate → Gate
record_nonce body now g = record g {
  consumed = sweep (unix now) (Dict.put body.nonce body.expiry g.consumed);
}

-- The part of `RequireToken` that holds the lock; `now` is the clock's second reading.
pub consume : Gate → TokenBody → ℕ → Gate × Result Error (Unit {0})
unfolding record_nonce
consume g body now = elim (Dict.get g.consumed body.nonce) [
  | some used ↦ (g, err token_consumed)
  | none ↦ (record_nonce body now g, ok tt)
]

-- `RequireToken`, with the clock's readings before and under the lock.
pub require_token : Codec → Gate → Operation → Bytes → ℕ → ℕ → Gate × Result Error (Unit {0})
require_token codec g op token now now' = elim (check_token codec g op token now) [
  | err e ↦ (g, err e)
  | ok body ↦ consume g body now'
]
