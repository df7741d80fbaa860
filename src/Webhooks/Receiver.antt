-- ===== src/Webhooks/Receiver.antt =====
-- internal/webhooks/receiver.go: the handler of `POST /webhook/{source}`.
-- The libraries answer from outside: `strconv.ParseInt`, `hex.DecodeString`, HMAC-SHA256 and the
-- JSON decoder. So do the reader of the body, the store of the sources, the clock, and the deployer
-- with its retries. Texts of responses are left out; a digest is its bytes.
pub mod Authentic
pub mod Recorded
use poor_man_cluster.Common.{
  ℕ, ◌+◌, ◌-◌, String, ◌==◌, Bool, true, false, not, ◌&&◌, ◌||◌, Option, none, some, List, [], ◌∷◌,
  ◌++◌, if◌then◌else◌, ltb, eqb, length,
}
use poor_man_cluster.Common.Errors.{Error, plain, Result, ok, err}
use poor_man_cluster.Common.Int.{ℤ, pos, negsuc, is_at_most_zero}
use poor_man_cluster.Common.Text.{bytes}
use poor_man_cluster.Stacks.Deploy.{Payload, Deployed}
use poor_man_cluster.Webhooks.Retry.{
  Env, Retried, RetryDeployer, retryer, deploy_async_with_retries, deterministic,
  deploy_phase_budget,
}
use text.Mathlib.Text.{starts_with}
use Prim.Native.String.{len, slice}

-- `MaxClockSkew`, in seconds
abbrev pub max_clock_skew : ℕ
max_clock_skew = 300

-- `MaxBodyBytes`
abbrev pub max_body_bytes : ℕ
max_body_bytes = 1_048_576

-- `sha256.Size`
abbrev pub sha256_size : ℕ
sha256_size = 32

-- A request: the source of its path, the body as `io.ReadAll` returns it, and the two headers, ""
-- where they are missing.
pub record Request : Type 0 where
  pub source : String
  pub body : Result (List ℕ)
  pub timestamp : String
  pub signature : String

-- `Delivery`
pub record Delivery : Type 0 where
  pub source : String
  pub status : String
  pub retries : ℕ
  pub stack_name : String
  pub repo_url : String
  pub file : String
  pub revision : ℕ
  pub error : Option Error

-- What the handler does, in its order: the counter, the response by its status, a row of the
-- delivery history, the mark on the source, and the start of the deploy phase. The row of a
-- deploy that is still running is written later, by the goroutine that waits for it.
pub data Action : Type 0 where
  counted : String → Action
  responded : ℕ → Action
  delivered : Delivery → Action
  delivered_later : Delivery → Action
  marked_used : String → Action
  deploying : Payload → Action

pub record Outside : Type 0 where
  pub parse_int : String → Option ℤ
  pub decimal : ℕ → List ℕ
  pub hex_decode : String → Option (List ℕ)
  pub hmac_sha256 : List ℕ → List ℕ → List ℕ
  pub unmarshal : List ℕ → Result Payload
  pub secret : String → Result (List ℕ)
  pub now : ℕ
  pub has_recorder : Bool
  pub max_retries : ℤ
  pub retry_delay : ℤ
  pub env : Payload → Env Deployed
  pub in_budget : Payload → Bool

-- `parseTimestamp`
abbrev positive : Option ℤ → Option ℕ
positive none = none
positive (some (negsuc n)) = none
positive (some (pos n)) = if eqb n 0 then none else some n

unfoldable pub parse_timestamp : (String → Option ℤ) → String → Option ℕ
parse_timestamp parse_int header = if header == "" then none else positive (parse_int header)

-- `delta`, whatever its sign.
abbrev pub distance : ℕ → ℕ → ℕ
distance a b = if ltb a b then b - a else a - b

-- `strings.CutPrefix(sigHeader, "sha256=")`
abbrev pub cut_prefix : String → Option String
cut_prefix header =
    if starts_with header "sha256=" then some (slice header 7 (len header)) else none

-- `hmac.Equal`
unfoldable pub equal_bytes : List ℕ → List ℕ → Bool
equal_bytes [] [] = true
equal_bytes [] (y ∷ ys) = false
equal_bytes (x ∷ xs) [] = false
equal_bytes (x ∷ xs) (y ∷ ys) = eqb x y && equal_bytes xs ys

module _ (o : Outside) where
  abbrev matches : List ℕ → ℕ → List ℕ → Result (List ℕ) → Bool
  matches want timestamp body (err e) = false
  matches want timestamp body (ok secret) =
      equal_bytes want (o.hmac_sha256 secret (o.decimal timestamp ++ body))

  abbrev of_digest : Request → ℕ → List ℕ → Option (List ℕ) → Bool
  of_digest r timestamp body none = false
  of_digest r timestamp body (some want) =
      if not (eqb (length want) sha256_size)
      then false
      else matches want timestamp body (o.secret r.source)

  abbrev of_prefix : Request → ℕ → List ℕ → Option String → Bool
  of_prefix r timestamp body none = false
  of_prefix r timestamp body (some parsed) = of_digest r timestamp body (o.hex_decode parsed)

  abbrev of_timestamp : Request → List ℕ → Option ℕ → Bool
  of_timestamp r body none = false
  of_timestamp r body (some timestamp) =
      if ltb max_clock_skew (distance o.now timestamp)
      then false
      else if r.signature == ""
      then false
      else of_prefix r timestamp body (cut_prefix r.signature)

  -- `verifyHMAC`: whether it returns no error; the caller treats all its errors alike.
  unfoldable pub verify_hmac : Request → List ℕ → Bool
  unfolding equal_bytes
  verify_hmac r body = of_timestamp r body (parse_timestamp o.parse_int r.timestamp)

  abbrev blank : String → String → ℕ → Delivery
  blank source status retries = record {
    source = source;
    status = status;
    retries = retries;
    stack_name = "";
    repo_url = "";
    file = "";
    revision = 0;
    error = none;
  }

  abbrev with_payload : Option Payload → Delivery → Delivery
  with_payload none d = d
  with_payload (some p) d = record d {
    stack_name = p.app_name;
    repo_url = p.repo_url;
    file = p.file;
  }

  abbrev with_result : Option Deployed → Delivery → Delivery
  with_result none d = d
  with_result (some res) d = record d { stack_name = res.stack_name; revision = res.revision }

  -- The row that `recordDelivery` makes.
  abbrev pub delivery :
      String → String → Option Payload → Option Error → Option Deployed → ℕ → Delivery
  delivery source status p failure res retries =
      record (with_result res (with_payload p (blank source status retries))) { error = failure }

  -- `recordDelivery`, which does nothing without a recorder.
  abbrev pub record_delivery : Delivery → List Action
  record_delivery d = if o.has_recorder then delivered d ∷ [] else []

  abbrev pub refused : Request → String → ℕ → List Action
  refused r status code =
      counted status ∷ responded code ∷ record_delivery (delivery r.source status none none none 0)

  abbrev failed_outcome : Request → Payload → Error → ℕ → Option String → List Action
  failed_outcome r p e retries (some step) =
      counted "rejected"
      ∷ responded 422
      ∷ record_delivery (delivery r.source "rejected" (some p) (some e) none 0)
  failed_outcome r p e retries none =
      counted "server_error"
      ∷ responded 502
      ∷ record_delivery (delivery r.source "server_error" (some p) (some e) none retries)

  -- The answer when the phase is over in time.
  abbrev outcome : Request → Payload → Option Deployed → ℕ → Option Error → List Action
  outcome r p res retries (some e) = failed_outcome r p e retries (deterministic e)
  outcome r p res retries none =
      counted "accepted"
      ∷ responded 202
      ∷ record_delivery (delivery r.source "accepted" (some p) none res retries)

  -- What the goroutine records that waits for a phase which is not.
  abbrev late : Request → Payload → Option Deployed → ℕ → Option Error → Delivery
  late r p res retries (some e) = delivery r.source "server_error" (some p) (some e) res retries
  late r p res retries none = delivery r.source "accepted" (some p) none res retries

  abbrev pending : Request → Payload → Retried Deployed → List Action
  pending r p out =
      counted "accepted_pending"
      ∷ responded 202
      ∷ (if o.has_recorder
          then delivered_later (late r p out.attempt.result out.retries out.attempt.error) ∷ []
          else [])

  -- `policy.DeployAsyncWithRetries`
  abbrev pub phase : Payload → Retried Deployed
  phase p = deploy_async_with_retries (retryer o.max_retries o.retry_delay) (o.env p)

  abbrev deploy_phase : Request → Payload → List Action
  deploy_phase r p =
      deploying p
      ∷ (if o.in_budget p
          then outcome r p (phase p).attempt.result (phase p).retries (phase p).attempt.error
          else pending r p (phase p))

  abbrev provenance : Request → Payload → List Action
  provenance r p =
      if p.repo_url == "" || p.file == ""
      then counted "bad_request"
        ∷ responded 400
        ∷ record_delivery (
            delivery r.source "bad_request" (some p) (some (plain "deploy provenance required"))
              none 0)
      else deploy_phase r p

  abbrev of_json : Request → Result Payload → List Action
  of_json r (err e) = refused r "bad_request" 400
  of_json r (ok p) = provenance r p

  abbrev of_body : Request → Result (List ℕ) → List Action
  of_body r (err e) = refused r "bad_request" 400
  of_body r (ok body) =
      if ltb max_body_bytes (length body)
      then refused r "bad_request" 413
      else if not (verify_hmac r body)
      then refused r "unauthorized" 401
      else marked_used r.source ∷ of_json r (o.unmarshal body)

  -- `Receiver.receive`
  unfoldable pub receive : Request → List Action
  receive r = if r.source == "" then refused r "bad_request" 400 else of_body r r.body
