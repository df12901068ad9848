-- ===== src/Vault/NonceStore/Laws.antt =====
-- A nonce is accepted once, within its lifetime, and independently of the other nonces.
use secure_net.Base.{
  ◌-◌, ◌<◌, ◌≡◌, ◌↔◌, true, false, none, some, arith, ltb, nat_eq, list_eq, list_beq_iff, list_beq,
  if◌then◌else◌,
}
use secure_net.Base.HashMap.{
  get, retain, get-remove, get-insert, get-retain, remove-IsMap, insert-IsMap, retain-IsMap, IsMap,
}
use secure_net.External.Hex.{Bytes}
use secure_net.Vault.NonceStore.{Instant, NonceStore, nonce_lifetime, is_fresh, register, consume}

-- `consume` accepts exactly the nonces that are stored and younger than the lifetime.
pub consume_iff :
    (m : NonceStore) (nonce : Bytes) (now : Instant)
    → ((consume m nonce now).0 ≡ true) ↔ (
        (issued_at : Instant) × (get nonce m ≡ some issued_at) × (now - issued_at < nonce_lifetime))
unfolding consume
consume_iff m nonce now = ground arith

pub get-consume :
    (m : NonceStore) (nonce k : Bytes) (now : Instant)
    → get k (consume m nonce now).1 ≡ (if list_beq nonce k then none else get k m)
unfolding consume
get-consume m nonce k now = ground (arith, get-remove nonce k m, list_beq_iff nonce k)

pub consume-IsMap :
    (m : NonceStore) (nonce : Bytes) (now : Instant) → IsMap m → IsMap (consume m nonce now).1
unfolding consume
consume-IsMap m nonce now d = ground (arith, remove-IsMap nonce m d)

pub register-IsMap :
    (m : NonceStore) (nonce : Bytes) (seen : Bytes → Instant) (now : Instant)
    → IsMap m
    → IsMap (register m nonce seen now)
unfolding register
register-IsMap m nonce seen now d = insert-IsMap nonce now _ (retain-IsMap _ m d)

pub get-register :
    (m : NonceStore) (nonce k : Bytes) (seen : Bytes → Instant) (now : Instant)
    → IsMap m
    → get k (register m nonce seen now) ≡ (
        if list_beq nonce k
        then some now
        else elim (get k m) [ none ↦ none | some i ↦ if is_fresh (seen k) i then some i else none ])
unfolding register
get-register m nonce k seen now d =
    let live = λ (j : Bytes) (i : Instant). is_fresh (seen j) i in
    ground (arith, get-insert nonce k now (retain live m), get-retain live k m d)

-- Whatever the first call answered, a second call for the same nonce answers `false`.
pub consume-consume :
    (m : NonceStore) (nonce : Bytes) (now later : Instant)
    → (consume (consume m nonce now).1 nonce later).0 ≡ false
unfolding consume
consume-consume m nonce now later =
    ground (arith, get-remove nonce nonce m, list_beq_iff nonce nonce)

-- In a store where no nonce stands twice, a nonce that was just registered is accepted exactly
-- while its age is below the lifetime.
pub consume-register :
    (m : NonceStore) (nonce : Bytes) (seen : Bytes → Instant) (now later : Instant)
    → IsMap m
    → (consume (register m nonce seen now) nonce later).0 ≡ ltb (later - now) nonce_lifetime
unfolding consume
consume-register m nonce seen now later d =
    ground (arith, get-register m nonce nonce seen now d, list_beq_iff nonce nonce)
