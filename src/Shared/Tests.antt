-- ===== src/Shared/Tests.antt =====
-- A concrete vault behind the clients, and the theorems of the shared crate at concrete inputs.
use secure_net.Base.{ℕ, ◌*◌, ◌≡◌, ◌⊎◌, refl, String, none, text_eq, All, trim}
use secure_net.Base.Result.{Result, ok, err}
use secure_net.External.Reqwest.{HttpResponse}
use secure_net.Samples.SampleHex.{sample_hex, sample_digest, encode, decode}
use secure_net.Samples.SampleJson.{sample_json, Tree, str, obj, entry, end, field}
use secure_net.Shared.Errors.{vault_unreachable, vault_rejected}
use secure_net.Shared.Models.{CertBundle, UnsealResponse, nanos_per_sec}
use secure_net.Shared.Attestation.{check_secure_boot, machine_id}
use secure_net.Shared.Exchange.{Transport}
use secure_net.Shared.Identity
use secure_net.Shared.Identity.{ServiceIdentity, locked, unsealing, serving, unseal}
use secure_net.Shared.Identity.Laws.{IsSound, unseal_error, unseal-IsSound}
use secure_net.Shared.VaultClient
use secure_net.Shared.VaultClient.{HttpVaultClient, renew}
use secure_net.Shared.Rotation.{retry_renew, config_for, new, new_gateway, round, rotation_loop}
use secure_net.Shared.Rotation.Sleep.{sleep_secs, spacing}
use secure_net.Shared.Boot.{run, run_gateway}

program : Unit {0}
unfolding check_secure_boot unseal renew retry_renew round rotation_loop new new_gateway config_for
    run run_gateway encode decode field machine_id trim sleep_secs spacing
program = tt

abbrev bundle : CertBundle
bundle = record {
  cert_pem = "LEAF";
  key_pem = "KEY";
  ca_pem = "CA";
  expires_at = 300 * nanos_per_sec;
  serial = "0000000000000001";
}

-- A vault that grants the bundle, on a clock that stands still.
abbrev granting : Transport Tree ℕ
granting = record {
  get = λ url now. (
    ok (record { status = 200; text = ok ""; json = ok (obj (entry "nonce" (str "0102") end)) }),
    now,
  );
  post = λ url req now.
      (ok (record { status = 200; text = ok ""; json = ok (record { bundle = bundle }) }), now);
}

abbrev refusing : Transport Tree ℕ
refusing = record {
  get = granting.get;
  post = λ url req now.
      (ok (record { status = 403; text = ok "no"; json = err "missing field" }), now);
}

abbrev machine_file : Result String String
machine_file = ok "m1\n"

abbrev answer : HttpResponse UnsealResponse
answer = record { status = 200; text = ok ""; json = ok (record { bundle = bundle }) }

abbrev fresh : ServiceIdentity
fresh = Identity.new "user-service"

granted :
    (unseal sample_hex sample_digest sample_json granting machine_file "v" fresh 5).0.result
    ≡ ok bundle
unfolding program
granted = refl

refused :
    (unseal sample_hex sample_digest sample_json refusing machine_file "v" fresh 5).0.result
    ≡ err (vault_rejected "no")
unfolding program
refused = refl

unseal_error_example :
    ((unseal sample_hex sample_digest sample_json refusing machine_file "v" fresh
        5).0.identity.bundle
      ≡ none)
    × (((body : String) × (vault_rejected "no" ≡ vault_rejected body)
          × ((unseal sample_hex sample_digest sample_json refusing machine_file "v" fresh
                5).0.identity.state
              ≡ locked))
        ⊎ ((text : String) × (vault_rejected "no" ≡ vault_unreachable text)
            × ((unseal sample_hex sample_digest sample_json refusing machine_file "v" fresh
                  5).0.identity.state
                ≡ unsealing)))
unseal_error_example =
    unseal_error sample_hex sample_digest sample_json refusing machine_file "v" fresh 5
      (vault_rejected "no") refused

unseal-IsSound_example :
    All IsSound
      (unseal sample_hex sample_digest sample_json granting machine_file "v" fresh 5).0.seen
unseal-IsSound_example =
    unseal-IsSound sample_hex sample_digest sample_json granting machine_file "v" fresh 5

abbrev client : HttpVaultClient
client = VaultClient.new "v" "user-service" bundle

renewal_refused :
    (renew sample_hex sample_digest sample_json refusing machine_file "user-service" client 5).0
    ≡ err (vault_rejected "no")
unfolding program
renewal_refused = refl
