-- ===== src/Vault/Verifier/Laws.antt =====
-- What the vault demands of an attestation, and what an attempt leaves of the nonce.
use secure_net.Base.{
  ◌-◌, ◌<◌, ◌≡◌, ◌≢◌, ◌↔◌, ◌⊎◌, inl, inr, String, true, some, arith, any, any_sound, any_complete,
  ◌==◌, text_eq, eq_iff, Bool-cases, nat_eq, list_eq,
}
use mathlib.Core.List.{Memᴰ}
use secure_net.Base.Result.{ok, Result-cases}
use secure_net.Base.HashMap.{get}
use secure_net.External.Hex.{Hex, Bytes, Digest}
use secure_net.Shared.Models.{UnsealRequest}
use secure_net.Vault.NonceStore.{NonceStore, Instant, nonce_lifetime, consume}
use secure_net.Vault.NonceStore.Laws.{consume_iff, consume-consume}
use secure_net.Vault.Verifier.{Allowlist, contains, verify_quote, verify}

-- A machine is allowed exactly when the list names it or holds the wildcard "dev".
pub contains_iff :
    (a : Allowlist) (machine_id : String)
    → (contains a machine_id ≡ true) ↔ (Memᴰ "dev" a.machine_ids ⊎ Memᴰ machine_id a.machine_ids)
unfolding contains
contains_iff a machine_id = (
  λ h. elim (Bool-cases (any (λ id. id == "dev") a.machine_ids)) [
    | inl dev ↦ inl (any_sound "dev" a.machine_ids dev)
    | inr no_dev ↦ inr (any_sound machine_id a.machine_ids (rw no_dev at h))
  ],
  λ m. elim m [
    | inl dev ↦ rw (any_complete "dev" a.machine_ids dev)
    | inr listed ↦ ground (arith, any_complete machine_id a.machine_ids listed)
  ],
)

module _ (hex : Hex) (sha256 : Digest) where
  -- The conditions of an accepted attestation, independent of the order of the checks.
  pub record IsAttested (req : UnsealRequest) (allowlist : Allowlist) (store : NonceStore)
      (now : Instant) : Type 0 where
    pub allowed : contains allowlist req.machine_id ≡ true
    pub nonempty : req.nonce ≢ ""
    pub nonce_bytes : Bytes
    pub decoded : hex.decode req.nonce ≡ ok nonce_bytes
    pub issued_at : Instant
    pub stored : get nonce_bytes store ≡ some issued_at
    pub fresh : now - issued_at < nonce_lifetime
    pub quoted : (req.tpm_quote ≡ "") ⊎ (req.tpm_quote ≡ hex.encode (sha256 nonce_bytes))

  verify_quote_iff :
      (req : UnsealRequest) (b : Bytes)
      → (verify_quote hex sha256 req b ≡ ok tt)
        ↔ ((req.tpm_quote ≡ "") ⊎ (req.tpm_quote ≡ hex.encode (sha256 b)))
  unfolding verify_quote
  verify_quote_iff req b =
      ground (arith, eq_iff req.tpm_quote "", eq_iff req.tpm_quote (hex.encode (sha256 b)))

  module _ (req : UnsealRequest) (allowlist : Allowlist) (store : NonceStore) (now : Instant) where
    -- A verified request passed every check.
    pub verified :
        (verify hex sha256 req allowlist store now).0 ≡ ok tt
        → (contains allowlist req.machine_id ≡ true)
          × (req.nonce ≢ "")
          × ((b : Bytes) × (hex.decode req.nonce ≡ ok b)
              × ((consume store b now).0 ≡ true)
              × (verify_quote hex sha256 req b ≡ ok tt)
              × ((verify hex sha256 req allowlist store now).1 ≡ (consume store b now).1))
    unfolding verify
    verified h = elim (Result-cases (hex.decode req.nonce)) [
      | inl (b, decoded) ↦ (
        ground arith,
        λ empty. absurd (ground (arith, eq_iff req.nonce "")),
        (b, decoded, ground arith, ground arith, ground arith),
      )
      | inr (e, bad) ↦ absurd (ground arith)
    ]

  verify-IsAttested :
      (req : UnsealRequest) (allowlist : Allowlist) (store : NonceStore) (now : Instant)
      → (verify hex sha256 req allowlist store now).0 ≡ ok tt
      → IsAttested req allowlist store now
  verify-IsAttested req allowlist store now h =
      let (allowed, nonempty, found) = verified req allowlist store now h in
      let (b, decoded, valid, quoted, _) = found in
      let (issued_at, stored, fresh) = (consume_iff store b now).0 valid in
      record {
        allowed = allowed;
        nonempty = nonempty;
        nonce_bytes = b;
        decoded = decoded;
        issued_at = issued_at;
        stored = stored;
        fresh = fresh;
        quoted = (verify_quote_iff req b).0 quoted;
      }

  IsAttested-verify :
      (req : UnsealRequest) (allowlist : Allowlist) (store : NonceStore) (now : Instant)
      → IsAttested req allowlist store now
      → (verify hex sha256 req allowlist store now).0 ≡ ok tt
  unfolding verify
  IsAttested-verify req allowlist store now a =
      let valid = (consume_iff store a.nonce_bytes now).1 (a.issued_at, a.stored, a.fresh) in
      ground (
        arith,
        a.allowed,
        a.nonempty,
        a.decoded,
        valid,
        eq_iff req.nonce "",
        (verify_quote_iff req a.nonce_bytes).1 a.quoted,
      )

  pub verify_iff :
      (req : UnsealRequest) (allowlist : Allowlist) (store : NonceStore) (now : Instant)
      → ((verify hex sha256 req allowlist store now).0 ≡ ok tt) ↔ IsAttested req allowlist store now
  verify_iff req allowlist store now =
      (verify-IsAttested req allowlist store now, IsAttested-verify req allowlist store now)

  -- After an accepted request every later request is refused whose nonce text decodes to the same
  -- bytes, whatever else it says and whatever the allowlist is by then.
  pub verify_replay :
      (req req' : UnsealRequest) (allowlist allowlist' : Allowlist) (store : NonceStore)
      (now later : Instant)
      → (verify hex sha256 req allowlist store now).0 ≡ ok tt
      → hex.decode req'.nonce ≡ hex.decode req.nonce
      → (verify hex sha256 req' allowlist' (verify hex sha256 req allowlist store now).1 later).0
        ≢ ok tt
  verify_replay req req' allowlist allowlist' store now later accepted same again =
      let (b, decoded, _, _, spent) = (verified req allowlist store now accepted).2 in
      let (b', decoded', valid, _, _) =
        (verified req' allowlist' (verify hex sha256 req allowlist store now).1 later again).2 in
      let one : b' ≡ b = ground arith in cc (consume-consume store b now later, one, spent, valid)

  pub verify_store :
      (req : UnsealRequest) (allowlist : Allowlist) (store : NonceStore) (now : Instant)
      → ((verify hex sha256 req allowlist store now).1 ≡ store)
        ⊎ ((b : Bytes) × (hex.decode req.nonce ≡ ok b)
            × ((verify hex sha256 req allowlist store now).1 ≡ (consume store b now).1))
  unfolding verify
  verify_store req allowlist store now = elim (Result-cases (hex.decode req.nonce)) [
    | inr (e, bad) ↦ inl (ground arith)
    | inl (b, decoded) ↦ elim (Bool-cases (contains allowlist req.machine_id)) [
      | inr refused ↦ inl (ground arith)
      | inl allowed ↦ elim (Bool-cases (req.nonce == "")) [
        | inl empty ↦ inl (ground arith)
        | inr nonempty ↦ inr (b, decoded, ground arith)
      ]
    ]
  ]
