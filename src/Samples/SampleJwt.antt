-- ===== src/Samples/SampleJwt.antt =====
-- Tokens for a single user, and a password hash that is the password.
use secure_net.Base.{
  ℕ, zero, suc, ap, ◌∙◌, Bool-cases, inl, inr, ◌+◌, String, ◌≡◌, Bool, true, [], ◌∷◌, refl, arith,
  any, any_sound, any_complete, ◌==◌, text_eq, list_eq, nat_eq, eq_iff, list_beq_iff, leb, ◌&&◌,
  if◌then◌else◌,
}
use secure_net.Base.Result.{Result, ok, err}
use secure_net.External.Jsonwebtoken.{Jsonwebtoken, Algorithm, Validation, IsCurrent, Bcrypt}
use secure_net.Shared.Models.{Claims}

-- The issue time, one stroke for a second.
unfoldable pub strokes : ℕ → String
strokes zero = ""
strokes (suc n) = String.◌∷◌ "I" (strokes n)

unfoldable pub count : String → ℕ
count String.[] = 0
count (String.◌∷◌ c s) = suc (count s)

pub count-strokes : (n : ℕ) → count (strokes n) ≡ n
unfolding strokes count
count-strokes zero = refl
count-strokes (suc n) = omega (arith, count-strokes n)

abbrev pub claims_at : ℕ → Claims
claims_at n = record {
  sub = "alice";
  iat = n;
  exp = n + 3600;
  iss = "securenet-gateway";
  roles = "user" ∷ [];
}

is_alice : Claims → Bool
is_alice c =
    (c.sub == "alice")
    && ((c.exp == c.iat + 3600) && ((c.iss == "securenet-gateway") && (c.roles == ("user" ∷ []))))

is_current : Claims → Validation → ℕ → Bool
is_current c v now = leb now (c.exp + v.leeway) && any (λ id. id == c.iss) v.issuers

unfoldable pub encode : Algorithm → Claims → Unit {0} → Result String String
unfolding is_alice strokes
encode _ c _ = if is_alice c then ok (strokes c.iat) else err "only alice"

unfoldable pub decode : String → Unit {0} → Validation → ℕ → Result Claims String
unfolding is_current count
decode token _ v now =
    if is_current (claims_at (count token)) v now
    then ok (claims_at (count token))
    else err "ExpiredSignature"

is_alice_lem : (c : Claims) → is_alice c ≡ true → claims_at c.iat ≡ c
unfolding is_alice
is_alice_lem c h = ground (
  arith,
  eq_iff c.sub "alice",
  eq_iff c.iss "securenet-gateway",
  list_beq_iff c.roles ("user" ∷ []),
)

is_current-IsCurrent :
    (v : Validation) (now : ℕ) (c : Claims) → IsCurrent v now c → is_current c v now ≡ true
unfolding is_current
is_current-IsCurrent v now c k = ground (arith, k.unexpired, any_complete c.iss v.issuers k.issuer)

IsCurrent-is_current :
    (v : Validation) (now : ℕ) (c : Claims) → is_current c v now ≡ true → IsCurrent v now c
unfolding is_current
IsCurrent-is_current v now c h = record {
  unexpired = ground arith;
  issuer = any_sound c.iss v.issuers (ground arith);
}

pub decode-encode :
    (v : Validation) (now : ℕ) (c : Claims) (token : String)
    → encode v.algorithm c tt ≡ ok token
    → IsCurrent v now c
    → decode token tt v now ≡ ok c
unfolding encode decode
decode-encode v now c token h k = elim (Bool-cases (is_alice c)) [
  | inr other ↦ absurd (ground arith)
  | inl alice ↦
      let same = is_alice_lem c alice in
      let strokes_of : token ≡ strokes c.iat = ground arith in
      let counted : count token ≡ c.iat = ap count strokes_of ∙ count-strokes c.iat in
      let here : claims_at (count token) ≡ c = ap claims_at counted ∙ same in
      let current = is_current-IsCurrent v now c k in ground arith
]

pub decode-IsCurrent :
    (token : String) (v : Validation) (now : ℕ) (c : Claims)
    → decode token tt v now ≡ ok c
    → IsCurrent v now c
unfolding decode
decode-IsCurrent token v now c h = elim (Bool-cases (is_current (claims_at (count token)) v now)) [
  | inr stale ↦ absurd (ground arith)
  | inl current ↦
      let same : claims_at (count token) ≡ c = ground arith in
      IsCurrent-is_current v now c (rw (← same) current)
]

abbrev pub sample_jwt : Jsonwebtoken
sample_jwt = record {
  EncodingKey = Unit;
  DecodingKey = Unit;
  encoding_from_rsa_pem = λ _. ok tt;
  decoding_from_rsa_pem = λ _. ok tt;
  encode = encode;
  decode = decode;
  IsPair = λ _ _. Unit;
  decode-encode = λ v now c token _. decode-encode v now c token;
  decode-IsCurrent = λ token _. decode-IsCurrent token;
}

pub verify-hash :
    (password h : String)
    → ◌≡◌ {A = Result String String} (ok password) (ok h)
    → ◌≡◌ {A = Result Bool String} (ok (password == h)) (ok true)
verify-hash password h e = ap ok ((eq_iff password h).1 (ground arith))

abbrev pub sample_bcrypt : Bcrypt
sample_bcrypt = record {
  hash = λ password _. ok password;
  verify = λ password h. ok (password == h);
  verify-hash = λ password h _. verify-hash password h;
}
