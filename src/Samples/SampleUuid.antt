-- ===== src/Samples/SampleUuid.antt =====
-- UUIDs as strokes.
use secure_net.Base.{some, ap}
use secure_net.External.UuidText.{UuidText}
use secure_net.Samples.SampleJwt.{strokes, count, count-strokes}

abbrev pub sample_uuid : UuidText
sample_uuid = record {
  show = strokes;
  parse = λ s. some (count s);
  parse-show = λ id. ap some (count-strokes id);
}
