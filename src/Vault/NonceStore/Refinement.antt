-- ===== src/Vault/NonceStore/Refinement.antt =====
-- Pruning is invisible: the store answers as a ledger that forgets nothing but what was consumed.
use secure_net.Base.{
  ◌+◌, ◌≤◌, ◌≡◌, refl, ◌⊎◌, inl, ap₂, Bool, false, Option, none, some, List, [], ◌∷◌, arith, nat_eq,
  list_eq, list_beq, if◌then◌else◌,
}
use secure_net.Base.HashMap.{get, IsMap}
use secure_net.External.Hex.{Bytes}
use secure_net.Vault.NonceStore.{
  Instant, NonceStore, nonce_lifetime, is_fresh, new, register, consume,
}
use secure_net.Vault.NonceStore.Laws.{get-consume, get-register, consume-IsMap, register-IsMap}

pub data Event : Type 0 where
  registered : Bytes → (Bytes → Instant) → Instant → Event
  consumed : Bytes → Instant → Event

-- The answers of the `consumed` events, by the store.
unfoldable pub answers : NonceStore → List Event → List Bool
answers m [] = []
answers m (registered nonce seen now ∷ es) = answers (register m nonce seen now) es
answers m (consumed nonce now ∷ es) = let (valid, m') = consume m nonce now in valid ∷ answers m' es

-- When each nonce was last registered, if it has not been consumed since.
abbrev pub Ledger : Type 0
Ledger = Bytes → Option Instant

abbrev pub update : Ledger → Bytes → Option Instant → Ledger
update f nonce v k = if list_beq nonce k then v else f k

abbrev pub is_live : Instant → Option Instant → Bool
is_live now none = false
is_live now (some issued_at) = is_fresh now issued_at

unfoldable pub ledger_answers : Ledger → List Event → List Bool
ledger_answers f [] = []
ledger_answers f (registered nonce seen now ∷ es) = ledger_answers (update f nonce (some now)) es
ledger_answers f (consumed nonce now ∷ es) =
    is_live now (f nonce) ∷ ledger_answers (update f nonce none) es

-- The readings of a monotonic clock, from `t` on.
abbrev pub InOrder : Instant → List Event → Type 0
InOrder t [] = Unit
InOrder t (registered nonce seen now ∷ es) =
    ((k : Bytes) → seen k ≤ now) × (t ≤ now) × InOrder now es
InOrder t (consumed nonce now ∷ es) = (t ≤ now) × InOrder now es

-- What the store lacks has expired.
abbrev Agrees : Instant → NonceStore → Ledger → Type 0
Agrees t m f =
    (k : Bytes)
    → (get k m ≡ f k)
      ⊎ ((get k m ≡ none) × ((i : Instant) × (f k ≡ some i) × (i + nonce_lifetime ≤ t)))

register-Agrees :
    (t now : Instant) (m : NonceStore) (f : Ledger) (nonce : Bytes) (seen : Bytes → Instant)
    → IsMap m
    → t ≤ now
    → ((k : Bytes) → seen k ≤ now)
    → Agrees t m f
    → Agrees now (register m nonce seen now) (update f nonce (some now))
register-Agrees t now m f nonce seen d le seen_le h k =
    ground (arith, get-register m nonce k seen now d, h k, seen_le k)

consume-Agrees :
    (t now : Instant) (m : NonceStore) (f : Ledger) (nonce : Bytes)
    → t ≤ now
    → Agrees t m f
    → Agrees now (consume m nonce now).1 (update f nonce none)
consume-Agrees t now m f nonce le h k = ground (arith, get-consume m nonce k now, h k)

consume-eq-is_live :
    (t now : Instant) (m : NonceStore) (f : Ledger) (nonce : Bytes)
    → t ≤ now
    → Agrees t m f
    → (consume m nonce now).0 ≡ is_live now (f nonce)
unfolding consume
consume-eq-is_live t now m f nonce le h = ground (arith, h nonce)

answers-Agrees :
    (es : List Event) (t : Instant) (m : NonceStore) (f : Ledger)
    → IsMap m
    → Agrees t m f
    → InOrder t es
    → answers m es ≡ ledger_answers f es
unfolding answers ledger_answers
answers-Agrees [] t m f d h o = refl
answers-Agrees (registered nonce seen now ∷ es) t m f d h o =
    answers-Agrees es now _ _ (register-IsMap m nonce seen now d)
      (register-Agrees t now m f nonce seen d o.1 o.0 h) o.2
answers-Agrees (consumed nonce now ∷ es) t m f d h o =
    ap₂ ◌∷◌ (consume-eq-is_live t now m f nonce o.0 h) (
      answers-Agrees es now _ _ (consume-IsMap m nonce now d) (consume-Agrees t now m f nonce o.0 h)
        o.1)

-- Over every sequence of registrations and consumptions whose clock readings never go back, a new
-- store answers each consumption as the ledger does, so that pruning never changes an answer.
pub answers-eq-ledger_answers :
    (es : List Event) → InOrder 0 es → answers new es ≡ ledger_answers (λ _. none) es
answers-eq-ledger_answers es o =
    answers-Agrees es 0 new (λ _. none) tt (λ k. unfold get in inl refl) o
