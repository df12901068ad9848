-- ===== src/Shared/Rotation/Laws.antt =====
-- What the renewal task asks for, what it installs, and when.
use secure_net.Base.{
  ℕ, ◌+◌, ◌*◌, ◌≤◌, ◌≡◌, ◌⊎◌, inl, inr, refl, ap, ◌∙◌, String, true, false, List, [], ◌∷◌, arith,
}
use secure_net.Base.Result.{Result, ok, err, Result-cases}
use secure_net.External.Rustls.{Rustls}
use secure_net.Shared.Errors.{AppError}
use secure_net.Shared.Models.{CertBundle, nanos_per_sec, ttl_secs}
use secure_net.Shared.Tls.{server_config, gateway_server_config}
use secure_net.Shared.Rotation.Sleep.{sleep_secs, spacing}
use secure_net.Shared.Rotation.{
  Runtime, give_up, retry_renew, RotatingTlsConfig, config_for, new, new_gateway, Rotation, round,
}

sleep_270 : sleep_secs 300 ≡ 270
unfolding sleep_secs spacing
sleep_270 = refl

sleep_27 : sleep_secs 30 ≡ 27
unfolding sleep_secs spacing
sleep_27 = refl

module _ (tls : Rustls) where
  -- The installed configuration and the serial number are those of one bundle.
  pub record IsConsistent (c : RotatingTlsConfig tls) : Type 0 where
    pub bundle : CertBundle
    pub built : config_for tls c.is_gateway bundle ≡ ok c.inner
    pub serial : c.serial ≡ bundle.serial

  -- Both constructors give a consistent configuration; only the gateway's asks for no client
  -- certificates.
  pub new-IsConsistent :
      (bundle : CertBundle) (c : RotatingTlsConfig tls)
      → (new tls bundle ≡ ok c → IsConsistent c × (c.is_gateway ≡ false))
        × (new_gateway tls bundle ≡ ok c → IsConsistent c × (c.is_gateway ≡ true))
  unfolding new new_gateway config_for
  new-IsConsistent bundle c = (
    λ h. elim (Result-cases (server_config tls bundle)) [
      | inr (e, bad) ↦ absurd (ground arith)
      | inl (config, built) ↦
          (record { bundle = bundle; built = ground arith; serial = ground arith }, ground arith)
    ],
    λ h. elim (Result-cases (gateway_server_config tls bundle)) [
      | inr (e, bad) ↦ absurd (ground arith)
      | inl (config, built) ↦
          (record { bundle = bundle; built = ground arith; serial = ground arith }, ground arith)
    ],
  )

module _ {S : Type 0} (rt : Runtime S) where
  -- The states in which three attempts are made, with pauses of 2 s and 4 s between them.
  abbrev pub attempt_states : String → S → List S
  attempt_states service_name s =
      let second = rt.sleep 2 (rt.renew service_name s).1 in
      let third = rt.sleep 4 (rt.renew service_name second).1 in s ∷ second ∷ third ∷ []

  -- The first success, with the state after it, or what follows the last failure.
  abbrev pub first_success : String → S → List S → Result CertBundle AppError × S
  first_success service_name final [] = (err (give_up rt 3), final)
  first_success service_name final (s ∷ ss) = elim (rt.renew service_name s).0 [
    | ok bundle ↦ (ok bundle, (rt.renew service_name s).1)
    | err _ ↦ first_success service_name (rt.renew service_name s).1 ss
  ]

  -- A renewal is the first success among at most three attempts, 2 s and 4 s apart, and fails only
  -- if all three fail.
  pub retry_renew-eq-first_success :
      (service_name : String) (s : S)
      → retry_renew rt service_name 3 s
        ≡ first_success service_name s (attempt_states service_name s)
  unfolding retry_renew
  retry_renew-eq-first_success service_name s = ground arith

  module _ (tls : Rustls) where
    -- A turn either installs the bundle of a successful renewal, with its remaining lifetime, or
    -- keeps the configuration and sets the lifetime to 30 s: the latter if the renewal failed or no
    -- configuration can be made of the bundle.
    pub round_cases :
        (service_name : String) (rot : Rotation tls) (s : S)
        → ((bundle : CertBundle) × ((retry_renew rt service_name 3
                (rt.sleep (sleep_secs rot.ttl) s)).0
              ≡ ok bundle)
            × (config_for tls rot.config.is_gateway bundle
                ≡ ok (round rt tls service_name (rot, s)).0.config.inner)
            × ((round rt tls service_name (rot, s)).0.config.serial ≡ bundle.serial)
            × ((round rt tls service_name (rot, s)).0.ttl
                ≡ ttl_secs bundle (rt.now (round rt tls service_name (rot, s)).1)))
          ⊎ (((round rt tls service_name (rot, s)).0 ≡ record rot { ttl = 30 })
              × (((e : AppError) × ((retry_renew rt service_name 3
                        (rt.sleep (sleep_secs rot.ttl) s)).0
                      ≡ err e))
                  ⊎ ((bundle : CertBundle) × (e : AppError) × ((retry_renew rt service_name 3
                          (rt.sleep (sleep_secs rot.ttl) s)).0
                        ≡ ok bundle)
                      × (config_for tls rot.config.is_gateway bundle ≡ err e))))
    unfolding round
    round_cases service_name rot s =
        elim (Result-cases (retry_renew rt service_name 3 (rt.sleep (sleep_secs rot.ttl) s)).0) [
          | inr (e, failed) ↦ inr (ground arith, inl (e, failed))
          | inl (bundle, renewed) ↦
              elim (Result-cases (config_for tls rot.config.is_gateway bundle)) [
                | inr (e, bad) ↦ inr (ground arith, inr (bundle, e, renewed, bad))
                | inl (config, built) ↦
                    inl (bundle, renewed, ground arith, ground arith, ground arith)
              ]
        ]

    -- Three failures take the two pauses at least.
    failed_lem :
        (service_name : String) (s : S) (e : AppError)
        → ((n : ℕ) (t : S) → rt.now t + n * nanos_per_sec ≤ rt.now (rt.sleep n t))
        → ((t : S) → rt.now t ≤ rt.now (rt.renew service_name t).1)
        → (retry_renew rt service_name 3 s).0 ≡ err e
        → rt.now s + 6 * nanos_per_sec ≤ rt.now (retry_renew rt service_name 3 s).1
    unfolding retry_renew
    failed_lem service_name s e passes forward failed =
        let s1 = (rt.renew service_name s).1 in
        let second = rt.sleep 2 s1 in
        let s2 = (rt.renew service_name second).1 in
        let third = rt.sleep 4 s2 in
        elim (Result-cases (rt.renew service_name s).0) [
          | inl (b, good) ↦ absurd (ground arith)
          | inr (e1, bad) ↦ elim (Result-cases (rt.renew service_name second).0) [
            | inl (b, good) ↦ absurd (ground arith)
            | inr (e2, bad') ↦ elim (Result-cases (rt.renew service_name third).0) [
              | inl (b, good) ↦ absurd (ground arith)
              | inr (e3, bad'') ↦
                  ground (arith, forward s, passes 2 s1, forward second, passes 4 s2, forward third)
            ]
          ]
        ]

    -- If a certificate lives for 300 s from the start of the turn and all three attempts to renew it
    -- fail, then the next attempt comes when it has expired: 303 s after the start at the earliest,
    -- for a clock that a pause moves on by its length and a request does not turn back.
    pub late_retry :
        (service_name : String) (rot : Rotation tls) (s : S) (bundle : CertBundle) (e : AppError)
        → ((n : ℕ) (t : S) → rt.now t + n * nanos_per_sec ≤ rt.now (rt.sleep n t))
        → ((t : S) → rt.now t ≤ rt.now (rt.renew service_name t).1)
        → rot.ttl ≡ 300
        → bundle.expires_at ≤ rt.now s + 300 * nanos_per_sec
        → (retry_renew rt service_name 3 (rt.sleep (sleep_secs rot.ttl) s)).0 ≡ err e
        → (rt.now s + 303 * nanos_per_sec
            ≤ rt.now (
                rt.sleep
                  (sleep_secs (round rt tls service_name (rot, s)).0.ttl)
                  (round rt tls service_name (rot, s)).1))
          × (ttl_secs bundle (
                rt.now (
                  rt.sleep
                    (sleep_secs (round rt tls service_name (rot, s)).0.ttl)
                    (round rt tls service_name (rot, s)).1))
              ≡ 0)
    unfolding round ttl_secs
    late_retry service_name rot s bundle e passes forward ttl expiry failed =
        let woken = rt.sleep (sleep_secs rot.ttl) s in
        let tried = (retry_renew rt service_name 3 woken).1 in
        let slept : sleep_secs rot.ttl ≡ 270 = ap sleep_secs ttl ∙ sleep_270 in
        let reset : (round rt tls service_name (rot, s)).0.ttl ≡ 30 = ground (arith, failed) in
        let pause : sleep_secs (round rt tls service_name (rot, s)).0.ttl ≡ 27 =
          ap sleep_secs reset ∙ sleep_27 in
        let first = passes (sleep_secs rot.ttl) s in
        let second = failed_lem service_name woken e passes forward failed in
        let third = passes (sleep_secs (round rt tls service_name (rot, s)).0.ttl) tried in
        let later : rt.now s + 303 * nanos_per_sec
            ≤ rt.now (rt.sleep (sleep_secs (round rt tls service_name (rot, s)).0.ttl) tried) =
          omega (
            arith,
            ap (λ (n : ℕ). n * nanos_per_sec) slept,
            ap (λ (n : ℕ). n * nanos_per_sec) pause,
            first,
            second,
            third,
          ) in
        (later, omega (arith, later, expiry))
