-- ===== src/Samples/SampleHost.antt =====
-- A machine with no variables set, whose files say their paths.
use secure_net.Base.{String, none}
use secure_net.Base.Result.{ok, err}
use secure_net.External.Host.{Host}
use secure_net.External.Otel.{Otel}

abbrev pub sample_host : Host
sample_host = record {
  env_var = λ name. none;
  read_to_string = ok;
  read = λ path. err "no such file";
  parse_addr = ok;
  bind = λ addr. ok tt;
}

abbrev pub sample_otel : Otel
sample_otel = record {
  Tracer = String;
  EnvFilter = String;
  install_batch = λ endpoint service_name. ok endpoint;
  try_from_default_env = err "not set";
  new_filter = λ directives. directives;
}
