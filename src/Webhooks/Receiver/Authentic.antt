-- ===== src/Webhooks/Receiver/Authentic.antt =====
-- What a deploy that a webhook starts has behind it.
use poor_man_cluster.Common.{
  ℕ, ◌≤◌, String, ◌==◌, ◌≡◌, refl, ap, ◌∙◌, ◌↔◌, true, false, Option, none, some, List, [], ◌∷◌,
  ◌++◌, arith, ltb, eqb, length, Bool-cases, Option-cases, inl, inr,
}
use poor_man_cluster.Common.Errors.{ok, Result-cases}
use poor_man_cluster.Stacks.Deploy.{Payload}
use poor_man_cluster.Webhooks.Receiver.{
  Request, Action, counted, responded, delivered, delivered_later, marked_used, deploying, Outside,
  max_clock_skew, max_body_bytes, sha256_size, parse_timestamp, distance, cut_prefix, equal_bytes,
  verify_hmac, receive,
}

-- The signature is in order: a timestamp near the clock, and the digest of it and the body under
-- the secret of the source, in the form of the header.
pub record Verified (o : Outside) (r : Request) (body : List ℕ) : Type 0 where
  pub time : ℕ
  pub digits : String
  pub digest : List ℕ
  pub secret : List ℕ
  pub timed : parse_timestamp o.parse_int r.timestamp ≡ some time
  pub recent : distance o.now time ≤ max_clock_skew
  pub signed : (r.signature == "") ≡ false
  pub prefixed : cut_prefix r.signature ≡ some digits
  pub decoded : o.hex_decode digits ≡ some digest
  pub sized : length digest ≡ sha256_size
  pub known : o.secret r.source ≡ ok secret
  pub same : digest ≡ o.hmac_sha256 secret (o.decimal time ++ body)

equal_bytes-eq : (xs ys : List ℕ) → equal_bytes xs ys ≡ true → xs ≡ ys
unfolding equal_bytes
equal_bytes-eq [] [] h = refl
equal_bytes-eq [] (y ∷ ys) h = absurd (ground arith)
equal_bytes-eq (x ∷ xs) [] h = absurd (ground arith)
equal_bytes-eq (x ∷ xs) (y ∷ ys) h =
    let first : x ≡ y = ground arith in
    let rest = equal_bytes-eq xs ys (ground arith) in rw (first, rest) refl

equal_bytes_refl : (xs : List ℕ) → equal_bytes xs xs ≡ true
unfolding equal_bytes
equal_bytes_refl [] = refl
equal_bytes_refl (x ∷ xs) = ground (arith, equal_bytes_refl xs)

module _ (o : Outside) (r : Request) (body : List ℕ) where
  verify_hmac-Verified : verify_hmac o r body ≡ true → Verified o r body
  unfolding verify_hmac
  verify_hmac-Verified h = elim (Option-cases (parse_timestamp o.parse_int r.timestamp)) [
    | inl absent ↦ absurd (ground arith)
    | inr (time, timed) ↦ elim (Option-cases (cut_prefix r.signature)) [
      | inl bare ↦ absurd (ground arith)
      | inr (digits, prefixed) ↦ elim (Option-cases (o.hex_decode digits)) [
        | inl broken ↦ absurd (ground arith)
        | inr (digest, decoded) ↦ elim (Result-cases (o.secret r.source)) [
          | inr (e, unknown) ↦ absurd (ground arith)
          | inl (secret, known) ↦ record {
            time = time;
            digits = digits;
            digest = digest;
            secret = secret;
            timed = timed;
            recent = ground arith;
            signed = ground arith;
            prefixed = prefixed;
            decoded = decoded;
            sized = ground arith;
            known = known;
            same =
                equal_bytes-eq digest (o.hmac_sha256 secret (o.decimal time ++ body))
                  (ground arith);
          }
        ]
      ]
    ]
  ]

  Verified-verify_hmac : Verified o r body → verify_hmac o r body ≡ true
  unfolding verify_hmac
  Verified-verify_hmac v =
      let near : ltb max_clock_skew (distance o.now v.time) ≡ false = ground (arith, v.recent) in
      let sized : eqb (length v.digest) sha256_size ≡ true = ground (arith, v.sized) in
      rw (v.timed, near, v.signed, v.prefixed, v.decoded, sized, v.known, v.same)
        (equal_bytes_refl (o.hmac_sha256 v.secret (o.decimal v.time ++ body)))

  -- The signature check passes exactly if the timestamp is a positive number at most five minutes
  -- from the clock, the source has a secret, and the header is `sha256=` and the 32 bytes of the
  -- digest of the timestamp and the body under that secret.
  pub verify_hmac_lem : (verify_hmac o r body ≡ true) ↔ Verified o r body
  verify_hmac_lem = (verify_hmac-Verified, Verified-verify_hmac)

-- The payload whose deploy is started.
abbrev pub deployed_payload : List Action → Option Payload
deployed_payload [] = none
deployed_payload (deploying p ∷ actions) = some p
deployed_payload (counted s ∷ actions) = deployed_payload actions
deployed_payload (responded n ∷ actions) = deployed_payload actions
deployed_payload (delivered d ∷ actions) = deployed_payload actions
deployed_payload (delivered_later d ∷ actions) = deployed_payload actions
deployed_payload (marked_used s ∷ actions) = deployed_payload actions

-- A deploy starts only for a request of a named source, with a body of at most a mebibyte that the
-- signature check has passed and that decodes to a payload with its repository and its file.
pub deployed_authentic :
    (o : Outside) (r : Request) (p : Payload)
    → deployed_payload (receive o r) ≡ some p
    → (body : List ℕ) × ((r.source == "") ≡ false)
      × (r.body ≡ ok body)
      × (length body ≤ max_body_bytes)
      × Verified o r body
      × (o.unmarshal body ≡ ok p)
      × ((p.repo_url == "") ≡ false)
      × ((p.file == "") ≡ false)
unfolding receive
deployed_authentic o r p h = elim (Result-cases r.body) [
  | inr (e, broken) ↦ absurd (ground (arith, broken))
  | inl (body, read) ↦ elim (Bool-cases (verify_hmac o r body)) [
    | inr forged ↦ absurd (ground (arith, forged))
    | inl verified ↦ elim (Result-cases (o.unmarshal body)) [
      | inr (e, garbled) ↦ absurd (ground (arith, garbled))
      | inl (q, decoded) ↦
          let same : q ≡ p = ground arith in
          (
            body,
            ground arith,
            read,
            ground arith,
            verify_hmac-Verified o r body verified,
            decoded ∙ ap (λ (x : Payload). ok x) same,
            ground arith,
            ground arith,
          )
    ]
  ]
]
