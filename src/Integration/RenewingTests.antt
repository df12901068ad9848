-- ===== src/Integration/RenewingTests.antt =====
-- A task that renews its certificate from a vault which also answers a health probe and a revocation.
use secure_net.Base.{ℕ, ◌*◌, String, false, some, [], ◌∷◌, text_eq, nat_eq, list_eq, trim}
use secure_net.Base.Result.{ok}
use secure_net.Samples.SampleHex.{sample_hex, sample_digest, encode, decode}
use secure_net.Samples.SampleJson.{sample_json, Tree, str, obj, entry, end, field}
use secure_net.Samples.SampleRustls.{sample_rustls}
use secure_net.Shared.Models.{DateTime, nanos_per_sec}
use secure_net.Shared.Attestation.{machine_id}
use secure_net.Shared.Exchange.{Transport}
use secure_net.Shared.Identity.{serving, unseal}
use secure_net.Shared.Tls.{server_config, build_root_store, parse_cert_chain, parse_private_key}
use secure_net.Shared.Rotation.{RotatingTlsConfig, config_for, new}
use secure_net.Shared.Boot.{BootResult, booted, run}
use secure_net.Vault.Issuer
use secure_net.Vault.State.{Env}
use secure_net.Vault.Routes.{get_health, post_revoke}
use secure_net.Integration.Renewing.{World}
use secure_net.Integration.Tests.{libraries, at, bundle}

program : Unit {0}
unfolding run new config_for server_config build_root_store parse_cert_chain parse_private_key
    unseal encode decode field machine_id trim
program = tt

abbrev print : ℕ → String
print n = "3"

abbrev env : ℕ → Env
env t = record (at 0) { instant = t; issue_env = record { now = t; utc_now = t; entropy = 5 } }

abbrev world : World libraries
world = record {
  env = env;
  lag = λ t. 2 * nanos_per_sec;
  overrun = λ t. 1000;
  between = λ t. (env t, get_health) ∷ [];
  meanwhile = λ t. (env t, post_revoke (str "01")) ∷ [];
}

-- A network that grants the bundle, in a world that tells the time.
abbrev granting : Transport Tree DateTime
granting = record {
  get = λ url now. (
    ok (record { status = 200; text = ok ""; json = ok (obj (entry "nonce" (str "0102") end)) }),
    now,
  );
  post = λ url req now.
      (ok (record { status = 200; text = ok ""; json = ok (record { bundle = bundle }) }), now);
}

abbrev config : RotatingTlsConfig sample_rustls
config = record {
  inner = ("CA" ∷ [], "LEAF" ∷ []);
  serial = "0000000000000001";
  is_gateway = false;
}

abbrev boot_result : BootResult sample_hex sample_digest sample_json sample_rustls
boot_result =
    booted sample_hex sample_digest sample_json sample_rustls "user-service" "v" (3 * nanos_per_sec)
      (record { state = serving; bundle = some bundle; service_name = "user-service" }) bundle
      config
