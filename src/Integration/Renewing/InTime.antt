-- ===== src/Integration/Renewing/InTime.antt =====
-- Whether the renewals come in time.
use secure_net.Base.{
  ℕ, ◌+◌, ◌-◌, ◌*◌, ◌≤◌, ◌<◌, ◌≡◌, String, Bool, some, sym, ap, ◌∙◌, subst, arith, nat_eq, list_eq,
}
use secure_net.Base.Result.{Result, ok}
use secure_net.External.Rustls.{Rustls}
use secure_net.Shared.Errors.{ErrorBody}
use secure_net.Shared.Models.{CertBundle, UnsealRequest, nanos_per_sec}
use secure_net.Shared.Attestation.{machine_id}
use secure_net.Shared.Exchange.{or_unknown, attested_request}
use secure_net.Shared.VaultClient
use secure_net.Shared.Rotation.{Rotation, Runtime, config_for, round, rotation_loop}
use secure_net.Shared.Rotation.Timely.{IsLasting, IsPrompt, IsTimely, replaced_in_time}
use secure_net.Vault.NonceStore.{nonce_lifetime}
use secure_net.Vault.Issuer.{Issuer, issue, issue_with}
use secure_net.Vault.Issuer.Laws.{issue-IsLeaf}
use secure_net.Vault.State.{Deps, Vault}
use secure_net.Vault.Routes
use secure_net.Vault.Routes.{get_nonce, post_renew, handle}
use secure_net.Vault.Routes.Issuance.{minted}
use secure_net.Integration.Laws.{request}
use secure_net.Integration.Crowd.{busy, crowded}
use secure_net.Integration.Crowd.Renewal.{renewal-busy, renew_succeeds_among}
use secure_net.Integration.Renewing.{Site, World, runtime, IsFair}
use secure_net.Integration.Renewing.Willing.{IsWilling, handle-IsWilling, serve-IsWilling}

module _ (d : Deps) (show : ErrorBody → String) (base : String) (world : World d)
    (machine_file : Result String String) (print : ℕ → String) (tls : Rustls) (is_gateway : Bool)
    (issuer : Issuer d.rcgen) (service_name : String) where
  abbrev pub rt : Runtime (Site d)
  rt = runtime d show base world machine_file print

  abbrev machine : String
  machine = or_unknown (machine_id machine_file)

  -- The client asks this vault, which lists the service's machine and issues with its CA.
  pub record IsFit (s : Site d) : Type 0 where
    pub here : s.client.vault_url ≡ base
    pub willing : IsWilling d issuer machine s.vault

  module _ (s : Site d) where
    abbrev middle : Vault d
    middle =
        crowded d show base (world.env s.time) (world.env (s.time + world.lag s.time))
          (world.between s.time) s.vault

    abbrev req : UnsealRequest
    req =
        request d show base (world.env s.time) (world.env (s.time + world.lag s.time)) s.vault
          machine_file service_name

    middle-IsWilling : IsWilling d issuer machine s.vault → IsWilling d issuer machine middle
    unfolding handle
    middle-IsWilling h =
        serve-IsWilling d issuer machine (world.between s.time) _
          (handle-IsWilling d issuer machine (world.env s.time) get_nonce s.vault h)

    -- The vault when it has answered both requests.
    abbrev answered : Vault d
    answered = (Routes.renew d (world.env (s.time + world.lag s.time)) req middle).1

    answered-IsWilling : IsWilling d issuer machine s.vault → IsWilling d issuer machine answered
    unfolding handle
    answered-IsWilling h =
        handle-IsWilling d issuer machine (world.env (s.time + world.lag s.time)) (post_renew req)
          middle (middle-IsWilling h)

    minted_lem :
        IsWilling d issuer machine s.vault
        → minted d (world.env (s.time + world.lag s.time)) req middle
          ≡ issue_with d.rcgen issuer middle.serial_counter
              (world.env (s.time + world.lag s.time)).issue_env
              service_name
    unfolding attested_request
    minted_lem h =
        ap
          (λ i.
            issue_with d.rcgen i middle.serial_counter
              (world.env (s.time + world.lag s.time)).issue_env service_name)
          (middle-IsWilling h).same

    renewed_vault :
        IsFit s
        → IsFair d tls is_gateway issuer service_name world
        → (VaultClient.renew d.hex d.sha256 d.json
            (busy d show base
              (world.between s.time)
              (world.env s.time)
              (world.env (s.time + world.lag s.time)))
            machine_file
            service_name
            s.client
            s.vault).2
          ≡ answered
    unfolding VaultClient.renew
    renewed_vault fit fair =
        ap (λ r. r.1)
          (renewal-busy d show base (world.env s.time) (world.env (s.time + world.lag s.time))
            (world.between s.time) s.vault machine_file service_name s.client fit.here
            (fair.bytes s.time))

    -- The bundle that the vault makes for the renewal.
    renewal :
        IsFit s
        → (fair : IsFair d tls is_gateway issuer service_name world)
        → (VaultClient.renew d.hex d.sha256 d.json
            (busy d show base
              (world.between s.time)
              (world.env s.time)
              (world.env (s.time + world.lag s.time)))
            machine_file
            service_name
            s.client
            s.vault)
          ≡ (
            ok (fair.issues middle.serial_counter (s.time + world.lag s.time)).0,
            record s.client {
              bundle = some (fair.issues middle.serial_counter (s.time + world.lag s.time)).0;
            },
            answered,
          )
    renewal fit fair =
        let (bundle, made, _, _) = fair.issues middle.serial_counter (s.time + world.lag s.time) in
        let in_time : (world.env (s.time + world.lag s.time)).instant - (world.env s.time).instant
            < nonce_lifetime =
          rw (fair.instant (s.time + world.lag s.time), fair.instant s.time)
            (omega (arith, fair.quick s.time)) in
        let (done, adopted) =
          renew_succeeds_among d show base (world.env s.time)
            (world.env (s.time + world.lag s.time)) (world.between s.time) s.vault machine_file
            service_name s.client bundle fit.here fit.willing.map (fair.bytes s.time)
            (fair.nonempty s.time) in_time fit.willing.listed (fair.spared s.time)
            (minted_lem fit.willing ∙ made) in
        cc (done, adopted, renewed_vault fit fair)

  module _ (fair : IsFair d tls is_gateway issuer service_name world) where
    lasting :
        (t counter : ℕ)
        → IsLasting rt tls service_name is_gateway
            (14 * nanos_per_sec)
            285
            IsFit
            (t + world.lag t + world.lag (t + world.lag t))
            (fair.issues counter (t + world.lag t)).0
    lasting t counter =
        let (bundle, made, config, built) = fair.issues counter (t + world.lag t) in
        let env = (world.env (t + world.lag t)).issue_env in
        let leaf =
          (issue-IsLeaf d.rcgen issuer counter env service_name bundle (unfold issue in made)).0 in
        let expiry = leaf.expires_at in
        let clock = fair.utc (t + world.lag t) in
        record {
          config = config;
          built = built;
          lasts = omega (arith, expiry, clock, fair.quick t, fair.quick (t + world.lag t));
          bounded = omega (arith, expiry, clock, fair.quick t, fair.quick (t + world.lag t));
        }

    prompt : IsPrompt rt tls service_name is_gateway (14 * nanos_per_sec) 285 IsFit
    unfolding runtime
    prompt = record {
      sleeps = λ n s fit. (
        omega (arith, fair.rested s.time),
        record {
          here = fit.here;
          willing = serve-IsWilling d issuer machine (world.meanwhile s.time) s.vault fit.willing;
        },
      );
      renews = λ s fit.
          let e = renewal s fit fair in
          let counter = (middle s).serial_counter in
          (
            (fair.issues counter (s.time + world.lag s.time)).0,
            ap (λ r. r.0) e,
            lasting s.time counter,
            omega (arith, fair.quick s.time, fair.quick (s.time + world.lag s.time)),
            record {
              here = ap (λ r. r.1.vault_url) e ∙ fit.here;
              willing =
                  subst (IsWilling d issuer machine) (sym (renewed_vault s fit fair))
                    (answered-IsWilling s fit.willing);
            },
          );
    }

    -- The certificate that is installed after any number of turns has not expired when the next turn
    -- ends, if the client and the vault are fit at the start and the installed certificate lives for
    -- at least the time that the task reckons with, which is 285 s or more and less than 2^49 s.
    pub renewed_in_time :
        (n : ℕ) (rot : Rotation tls) (s : Site d)
        → IsTimely rt tls service_name is_gateway (14 * nanos_per_sec) 285 IsFit (rot, s)
        → (bundle : CertBundle) × (config_for tls is_gateway bundle
            ≡ ok (rotation_loop rt tls service_name n (rot, s)).0.config.inner)
          × ((round rt tls service_name (rotation_loop rt tls service_name n (rot, s))).1.time
              ≤ bundle.expires_at)
    unfolding runtime
    renewed_in_time n rot s timely =
        replaced_in_time rt tls service_name is_gateway (14 * nanos_per_sec) 285 IsFit n rot s
          prompt (omega arith) timely
