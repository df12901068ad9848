-- ===== src/External/Host.antt =====
-- What a process asks of the machine that it starts on.
use secure_net.Base.{String, Option}
use secure_net.Base.Result.{Result}
use secure_net.External.Hex.{Bytes}

pub record Host : Type 0 where
  -- `std::env::var(name).ok()`
  pub env_var : String → Option String
  pub read_to_string : String → Result String String
  pub read : String → Result Bytes String
  -- `str::parse::<SocketAddr>`, as the text of the address.
  pub parse_addr : String → Result String String
  -- `TcpListener::bind`
  pub bind : String → Result (Unit {0}) String
