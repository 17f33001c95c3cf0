-- ===== src/Confirm/Approval.antt =====
-- pkg/confirm/confirm.go: the question to the user (`Confirm`) and the whole gate (`Check`).
-- The client's answer is an argument: `none` is an elicitation error, `some none` a nil result.
use rancher_ai_mcp.Prelude.{
  ℕ, String, ◌≡◌, ◌≢◌, sym, ap, eq_refl, Bool-cases, refl, ◌↔◌, inl, inr, Bool, true, false, Option,
  none, some, Result, ok, err, if◌then◌else◌, str_eq, eq_iff, arith,
}
use rancher_ai_mcp.Prelude.Dict
use rancher_ai_mcp.Prelude.Dict.{Dict}
use rancher_ai_mcp.Confirm.{
  Bytes, Error, confirmation_unsupported, Operation, Codec, Gate, require_token,
}

pub data Value : Type 0 where
  text : String → Value
  other : Value

pub record ElicitResult : Type 0 where
  pub action : String
  pub content : Dict Value

-- The form that the client shows: type a name, or choose approve or reject.
pub data Schema : Type 0 where
  confirm_name : String → Schema
  approve_or_reject : Schema

pub record ElicitParams : Type 0 where
  pub message : String
  pub requested_schema : Schema

abbrev pub Elicit : Type 0
Elicit = ElicitParams → Option (Option ElicitResult)

-- The default `ElicitFunc`: with no session it fails closed.
pub default_elicit : Option Elicit → Elicit
default_elicit none params = none
default_elicit (some session) params = session params

unfoldable pub requested : String → Schema
requested typed_name = if str_eq typed_name "" then approve_or_reject else confirm_name typed_name

-- `name, _ := content[key].(string)`
as_string : Option Value → String
as_string (some (text s)) = s
as_string _ = ""

answer : String → Option ElicitResult → Bool
unfolding as_string
answer typed_name none = false
answer typed_name (some res) =
    if str_eq res.action "accept"
    then (if str_eq typed_name ""
        then str_eq (as_string (Dict.get res.content "confirm")) "approve"
        else str_eq (as_string (Dict.get res.content "confirmName")) typed_name)
    else false

judge : String → Option (Option ElicitResult) → Result Error Bool
unfolding answer
judge typed_name none = err confirmation_unsupported
judge typed_name (some res) = ok (answer typed_name res)

unfoldable pub confirm : Elicit → String → String → Result Error Bool
unfolding judge requested
confirm elicit summary typed_name =
    judge typed_name
      (elicit (record { message = summary; requested_schema = requested typed_name }))

after_token : Elicit → String → String → Gate × Result Error (Unit {0}) → Gate × Result Error Bool
after_token elicit summary typed_name (g, err e) = (g, err e)
after_token elicit summary typed_name (g, ok _) = (g, confirm elicit summary typed_name)

unfoldable pub check :
    Codec
    → Elicit
    → Gate
    → Operation
    → Bytes
    → String
    → String
    → Bool
    → ℕ
    → ℕ
    → Gate × Result Error Bool
unfolding after_token confirm
check codec elicit g op token summary typed_name bypass now now' =
    if bypass
    then (g, ok true)
    else after_token elicit summary typed_name (require_token codec g op token now now')

-- What the user has to have answered.
pub record IsApproval (typed_name : String) (res : ElicitResult) : Type 0 where
  pub accepted : res.action ≡ "accept"
  pub chosen : typed_name ≡ "" → Dict.get res.content "confirm" ≡ some (text "approve")
  pub retyped : typed_name ≢ "" → Dict.get res.content "confirmName" ≡ some (text typed_name)

text_of_as_string : (v : Option Value) (s : String) → s ≢ "" → as_string v ≡ s → v ≡ some (text s)
unfolding as_string
text_of_as_string none s h e = absurd (h (sym e))
text_of_as_string (some (text t)) s h e = cc
text_of_as_string (some other) s h e = absurd (h (sym e))

as_string_eq :
    (v : Option Value) (s : String) → s ≢ "" → (str_eq (as_string v) s ≡ true) ↔ (v ≡ some (text s))
unfolding as_string
as_string_eq v s h =
    (λ e. text_of_as_string v s h ((eq_iff _ s).0 e), λ e. rw e ((eq_iff s s).1 refl))

approve_ne : ◌≢◌ {A = String} "approve" ""
approve_ne = ground (arith, eq_iff "approve" "")

answer-IsApproval :
    (typed_name : String) (res : ElicitResult)
    → (answer typed_name (some res) ≡ true) ↔ IsApproval typed_name res
unfolding answer
answer-IsApproval typed_name res = (
  λ e. record {
    accepted = ground (arith, eq_iff res.action "accept");
    chosen = λ p. ground (
      arith,
      eq_iff typed_name "",
      as_string_eq (Dict.get res.content "confirm") "approve" approve_ne,
    );
    retyped = λ p. ground (
      arith,
      eq_iff typed_name "",
      as_string_eq (Dict.get res.content "confirmName") typed_name p,
    );
  },
  λ a. elim (Bool-cases (str_eq typed_name "")) [
    | inl chosen ↦
        let same = a.chosen ((eq_iff typed_name "").0 chosen) in
        rw (chosen, a.accepted, eq_refl "accept")
          ((as_string_eq (Dict.get res.content "confirm") "approve" approve_ne).1 same)
    | inr named ↦
        let ne : typed_name ≢ "" = λ p. cc ((eq_iff typed_name "").1 p) in
        rw (named, a.accepted, eq_refl "accept")
          ((as_string_eq (Dict.get res.content "confirmName") typed_name ne).1 (a.retyped ne))
  ],
)

judge_iff :
    (typed_name : String) (reply : Option (Option ElicitResult))
    → (judge typed_name reply ≡ ok true)
      ↔ ((res : ElicitResult) × (reply ≡ some (some res)) × IsApproval typed_name res)
unfolding judge
judge_iff typed_name none = (λ e. cc, λ a. cc (a.1))
judge_iff typed_name (some none) = (λ e. cc, λ a. cc (a.1))
judge_iff typed_name (some (some r)) = (
  λ e. (r, refl, (answer-IsApproval typed_name r).0 (cc)),
  λ a. let same : r ≡ a.0 = cc (a.1) in ap ok ((answer-IsApproval typed_name r).1 (rw same a.2)),
)

-- The user, asked with this summary and this form, has answered with an approval.
pub record IsApproved (elicit : Elicit) (summary typed_name : String) : Type 0 where
  pub res : ElicitResult
  pub asked :
      elicit (record { message = summary; requested_schema = requested typed_name })
      ≡ some (some res)
  pub approval : IsApproval typed_name res

confirm_iff :
    (elicit : Elicit) (summary typed_name : String)
    → (confirm elicit summary typed_name ≡ ok true) ↔ IsApproved elicit summary typed_name
unfolding confirm
confirm_iff elicit summary typed_name = (
  λ e.
      let (r, asked, approval) = (judge_iff typed_name _).0 e in
      record { res = r; asked = asked; approval = approval },
  λ a. (judge_iff typed_name _).1 (a.res, a.asked, a.approval),
)

after_token_iff :
    (elicit : Elicit) (summary typed_name : String) (r : Gate × Result Error (Unit {0}))
    → ((after_token elicit summary typed_name r).1 ≡ ok true)
      ↔ ((r.1 ≡ ok tt) × IsApproved elicit summary typed_name)
unfolding after_token
after_token_iff elicit summary typed_name (g, err e) = (λ h. cc, λ h. cc (h.0))
after_token_iff elicit summary typed_name (g, ok t) = (
  λ h. (refl, (confirm_iff elicit summary typed_name).0 h),
  λ h. (confirm_iff elicit summary typed_name).1 h.1,
)

gate-after_token :
    (elicit : Elicit) (summary typed_name : String) (r : Gate × Result Error (Unit {0}))
    → (after_token elicit summary typed_name r).0 ≡ r.0
unfolding after_token
gate-after_token elicit summary typed_name (g, err e) = refl
gate-after_token elicit summary typed_name (g, ok t) = refl

module _ (codec : Codec) (elicit : Elicit) (g : Gate) (op : Operation) (token : Bytes)
    (summary typed_name : String) (now now' : ℕ) where
  -- Without the bypass, `Check` approves exactly when the token was accepted for this operation
  -- and the user then approved the summary (by typing the name, where a name is asked for); and
  -- whatever the user says, the gate is left as `RequireToken` leaves it, with the token spent.
  pub check_iff :
      (((check codec elicit g op token summary typed_name false now now').1 ≡ ok true) ↔ (
        ((require_token codec g op token now now').1 ≡ ok tt)
        × IsApproved elicit summary typed_name))
      × ((check codec elicit g op token summary typed_name false now now').0
          ≡ (require_token codec g op token now now').0)
  unfolding check
  check_iff = (
    after_token_iff elicit summary typed_name (require_token codec g op token now now'),
    gate-after_token elicit summary typed_name (require_token codec g op token now now'),
  )

  -- With the bypass it approves, and neither reads the token nor asks.
  pub check_bypass : check codec elicit g op token summary typed_name true now now' ≡ (g, ok true)
  unfolding check
  check_bypass = refl
