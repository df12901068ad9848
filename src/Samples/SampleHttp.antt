-- ===== src/Samples/SampleHttp.antt =====
-- Header maps of texts.
use secure_net.Base.{String, sym, text_eq}
use secure_net.Base.Result.{ok}
use secure_net.Base.HashMap.{HashMap, get, insert, get-insert}
use secure_net.External.Http.{Http}

abbrev pub sample_http : Http
sample_http = record {
  HeaderMap = HashMap String String;
  HeaderValue = String;
  get = λ m k. get k m;
  insert = λ m k v. insert k v m;
  to_str = ok;
  parse = ok;
  get-insert = λ m k j v. get-insert k j v m;
  to_str-parse = λ s v h. sym h;
}
