-- ===== src/Webhooks/Receiver/Recorded.antt =====
-- Every request is answered once, counted once, and recorded once.
use poor_man_cluster.Common.{
  ℕ, suc, String, ◌==◌, ◌≡◌, refl, Bool, true, false, ◌||◌, ltb, length, Option, none, some, List,
  [], ◌∷◌, arith, if◌then◌else◌, Bool-cases, inl, inr,
}
use poor_man_cluster.Common.Errors.{Error, Result, ok, err}
use poor_man_cluster.Stacks.Deploy.{Payload, Deployed}
use poor_man_cluster.Webhooks.Retry.{deterministic, is_nil, deploy_async_with_retries}
use poor_man_cluster.Webhooks.Receiver.{
  Request, Delivery, Action, counted, responded, delivered, delivered_later, marked_used, deploying,
  Outside, verify_hmac, phase, receive, failed_outcome, outcome, late, deploy_phase, provenance,
  of_json, of_body, max_body_bytes,
}
use poor_man_cluster.Webhooks.Receiver.Authentic.{
  deployed_payload, deployed_authentic, verify_hmac_lem,
}

-- The responses, the counts, and the rows written at once or later.
abbrev pub responses : List Action → ℕ
responses [] = 0
responses (responded n ∷ actions) = suc (responses actions)
responses (counted s ∷ actions) = responses actions
responses (delivered d ∷ actions) = responses actions
responses (delivered_later d ∷ actions) = responses actions
responses (marked_used s ∷ actions) = responses actions
responses (deploying p ∷ actions) = responses actions

abbrev pub counts : List Action → ℕ
counts [] = 0
counts (counted s ∷ actions) = suc (counts actions)
counts (responded n ∷ actions) = counts actions
counts (delivered d ∷ actions) = counts actions
counts (delivered_later d ∷ actions) = counts actions
counts (marked_used s ∷ actions) = counts actions
counts (deploying p ∷ actions) = counts actions

abbrev pub rows : List Action → List Delivery
rows [] = []
rows (delivered d ∷ actions) = d ∷ rows actions
rows (delivered_later d ∷ actions) = d ∷ rows actions
rows (counted s ∷ actions) = rows actions
rows (responded n ∷ actions) = rows actions
rows (marked_used s ∷ actions) = rows actions
rows (deploying p ∷ actions) = rows actions

-- One response, one count, and one row if there is a recorder.
abbrev pub Once : Bool → List Action → Type 0
Once recorder actions =
    (responses actions ≡ 1)
    × (counts actions ≡ 1)
    × (length (rows actions) ≡ (if recorder then 1 else 0))

Once-now :
    (recorder : Bool) (status : String) (code : ℕ) (d : Delivery)
    → Once recorder (counted status ∷ responded code ∷ (if recorder then delivered d ∷ [] else []))
Once-now true status code d = (refl, refl, refl)
Once-now false status code d = (refl, refl, refl)

Once-later :
    (recorder : Bool) (status : String) (code : ℕ) (d : Delivery)
    → Once recorder
        (counted status ∷ responded code ∷ (if recorder then delivered_later d ∷ [] else []))
Once-later true status code d = (refl, refl, refl)
Once-later false status code d = (refl, refl, refl)

module _ (o : Outside) (r : Request) where
  Once-failed :
      (p : Payload) (e : Error) (retries : ℕ) (step : Option String)
      → Once o.has_recorder (failed_outcome o r p e retries step)
  Once-failed p e retries none = Once-now o.has_recorder "server_error" 502 _
  Once-failed p e retries (some step) = Once-now o.has_recorder "rejected" 422 _

  Once-outcome :
      (p : Payload) (res : Option Deployed) (retries : ℕ) (e : Option Error)
      → Once o.has_recorder (outcome o r p res retries e)
  Once-outcome p res retries (some e) = Once-failed p e retries (deterministic e)
  Once-outcome p res retries none = Once-now o.has_recorder "accepted" 202 _

  Once-deploy_phase : (p : Payload) → Once o.has_recorder (deploy_phase o r p)
  Once-deploy_phase p = elim (Bool-cases (o.in_budget p)) [
    | inl in_time ↦
        let out = phase o p in
        rw in_time (Once-outcome p out.attempt.result out.retries out.attempt.error)
    | inr too_late ↦ rw too_late (Once-later o.has_recorder "accepted_pending" 202 _)
  ]

  Once-provenance : (p : Payload) → Once o.has_recorder (provenance o r p)
  Once-provenance p = elim (Bool-cases (p.repo_url == "" || p.file == "")) [
    | inl lacks ↦ rw lacks (Once-now o.has_recorder "bad_request" 400 _)
    | inr has ↦ rw has (Once-deploy_phase p)
  ]

  Once-json : (result : Result Payload) → Once o.has_recorder (of_json o r result)
  Once-json (err e) = Once-now o.has_recorder "bad_request" 400 _
  Once-json (ok p) = Once-provenance p

  Once-body : (result : Result (List ℕ)) → Once o.has_recorder (of_body o r result)
  Once-body (err e) = Once-now o.has_recorder "bad_request" 400 _
  Once-body (ok body) = elim (Bool-cases (ltb max_body_bytes (length body))) [
    | inl large ↦ rw large (Once-now o.has_recorder "bad_request" 413 _)
    | inr small ↦ elim (Bool-cases (verify_hmac o r body)) [
      | inr forged ↦ rw (small, forged) (Once-now o.has_recorder "unauthorized" 401 _)
      | inl verified ↦ rw (small, verified) (Once-json (o.unmarshal body))
    ]
  ]

  -- Every request gets one response and is counted once, and if there is a recorder, one row of the
  -- delivery history is written for it, at once or when its deploy is over.
  pub receive-Once : Once o.has_recorder (receive o r)
  unfolding receive
  receive-Once = elim (Bool-cases (r.source == "")) [
    | inl nameless ↦ rw nameless (Once-now o.has_recorder "bad_request" 400 _)
    | inr named ↦ rw named (Once-body r.body)
  ]

  receive-deploy_phase :
      (p : Payload)
      → deployed_payload (receive o r) ≡ some p
      → receive o r ≡ marked_used r.source ∷ deploy_phase o r p
  unfolding receive verify_hmac deploy_async_with_retries
  receive-deploy_phase p h =
      let (body, named, read, small, verified, decoded, repo, file) = deployed_authentic o r p h in
      let passes = (verify_hmac_lem o r body).1 verified in
      let fits : ltb max_body_bytes (length body) ≡ false = ground (arith, small) in
      rw (named, read, fits, passes, decoded, repo, file) refl

  -- The row of a deploy that a phase with this outcome has.
  abbrev pub Tells : Payload → Option Error → List Action → Type 0
  Tells p failure actions =
      (d : Delivery) × (rows actions ≡ d ∷ [])
      × (d.source ≡ r.source)
      × (d.repo_url ≡ p.repo_url)
      × (d.file ≡ p.file)
      × (d.error ≡ failure)
      × ((d.status == "accepted") ≡ is_nil failure)

  Tells-failed :
      (p : Payload) (e : Error) (retries : ℕ) (step : Option String)
      → o.has_recorder ≡ true
      → Tells p (some e) (failed_outcome o r p e retries step)
  Tells-failed p e retries none there = rw there (_, refl, refl, refl, refl, refl, refl)
  Tells-failed p e retries (some step) there = rw there (_, refl, refl, refl, refl, refl, refl)

  Tells-outcome :
      (p : Payload) (res : Option Deployed) (retries : ℕ) (e : Option Error)
      → o.has_recorder ≡ true
      → Tells p e (outcome o r p res retries e)
  Tells-outcome p res retries (some e) there = Tells-failed p e retries (deterministic e) there
  Tells-outcome p none retries none there = rw there (_, refl, refl, refl, refl, refl, refl)
  Tells-outcome p (some res) retries none there = rw there (_, refl, refl, refl, refl, refl, refl)

  Tells-late :
      (p : Payload) (res : Option Deployed) (retries : ℕ) (e : Option Error)
      → Tells p e (delivered_later (late o r p res retries e) ∷ [])
  Tells-late p none retries none = (_, refl, refl, refl, refl, refl, refl)
  Tells-late p none retries (some e) = (_, refl, refl, refl, refl, refl, refl)
  Tells-late p (some res) retries none = (_, refl, refl, refl, refl, refl, refl)
  Tells-late p (some res) retries (some e) = (_, refl, refl, refl, refl, refl, refl)

  -- Where there is a recorder, the one row of a request whose deploy has been started tells how the
  -- deploy and its retries ended, whether the response waited for them or not: it has the source,
  -- the repository and the file, the error of the last attempt, and the status `accepted` exactly
  -- if there is none.
  pub outcome_recorded :
      (p : Payload)
      → o.has_recorder ≡ true
      → deployed_payload (receive o r) ≡ some p
      → Tells p (phase o p).attempt.error (receive o r)
  outcome_recorded p there h =
      let out = phase o p in
      elim (Bool-cases (o.in_budget p)) [
        | inl in_time ↦
            rw (receive-deploy_phase p h, in_time)
              (Tells-outcome p out.attempt.result out.retries out.attempt.error there)
        | inr too_late ↦
            rw (receive-deploy_phase p h, too_late, there)
              (Tells-late p out.attempt.result out.retries out.attempt.error)
      ]
