-- ===== src/Tests/Deliveries.antt =====
-- A delivery of a webhook.
use poor_man_cluster.Common.{
  ℕ, ◌≤◌, ◌≡◌, refl, ◌==◌, ◌↔◌, true, false, none, some, List, [], ◌∷◌, length, if◌then◌else◌,
}
use poor_man_cluster.Common.Errors.{plain, ok}
use poor_man_cluster.Common.Int.{pos}
use poor_man_cluster.Stacks.Deploy.{Payload, Deployed}
use poor_man_cluster.Webhooks.Retry.{Env}
use poor_man_cluster.Webhooks.Receiver.{
  Request, Outside, max_body_bytes, parse_timestamp, equal_bytes, verify_hmac, phase, receive,
}
use poor_man_cluster.Webhooks.Receiver.Authentic.{
  Verified, verify_hmac_lem, deployed_payload, deployed_authentic,
}
use poor_man_cluster.Webhooks.Receiver.Recorded.{Tells, outcome_recorded}

abbrev payload : Payload
payload = record {
  app_name = "shop";
  repo_url = "git@example.org:shop";
  file = "deploy/shop.yaml";
  version = "";
  manifest = "app: shop";
}

abbrev env : Env Deployed
env = record {
  deploy = λ k. record { result = none; error = some (plain "down") };
  ctx_done = λ k. true;
  timer_first = λ k. false;
}

abbrev digest : List ℕ
digest =
    1 ∷ 2 ∷ 3 ∷ 4 ∷ 5 ∷ 6 ∷ 7 ∷ 8 ∷ 9 ∷ 10 ∷ 11 ∷ 12 ∷ 13 ∷ 14 ∷ 15 ∷ 16 ∷ 17 ∷ 18 ∷ 19 ∷ 20 ∷ 21
    ∷ 22 ∷ 23 ∷ 24 ∷ 25 ∷ 26 ∷ 27 ∷ 28 ∷ 29 ∷ 30 ∷ 31 ∷ 32 ∷ []

abbrev outside : Outside
outside = record {
  parse_int = λ text. some (pos 1000);
  decimal = λ n. 49 ∷ [];
  hex_decode = λ text. if text == "0102" then some digest else none;
  hmac_sha256 = λ key message. digest;
  unmarshal = λ body. ok payload;
  secret = λ source. ok (42 ∷ []);
  now = 1100;
  has_recorder = true;
  max_retries = pos 0;
  retry_delay = pos 0;
  env = λ p. env;
  in_budget = λ p. false;
}

abbrev request : Request
request = record {
  source = "ci";
  body = ok (123 ∷ 125 ∷ []);
  timestamp = "1000";
  signature = "sha256=0102";
}

verify_hmac_lem_example :
    (verify_hmac outside request (123 ∷ 125 ∷ []) ≡ true)
    ↔ Verified outside request (123 ∷ 125 ∷ [])
verify_hmac_lem_example = verify_hmac_lem outside request (123 ∷ 125 ∷ [])

starts : deployed_payload (receive outside request) ≡ some payload
unfolding receive verify_hmac parse_timestamp equal_bytes
starts = refl

deployed_authentic_example :
    (body : List ℕ) × ((request.source == "") ≡ false)
    × (request.body ≡ ok body)
    × (length body ≤ max_body_bytes)
    × Verified outside request body
    × (outside.unmarshal body ≡ ok payload)
    × ((payload.repo_url == "") ≡ false)
    × ((payload.file == "") ≡ false)
deployed_authentic_example = deployed_authentic outside request payload starts

outcome_recorded_example :
    Tells outside request payload (phase outside payload).attempt.error (receive outside request)
outcome_recorded_example = outcome_recorded outside request payload refl starts
