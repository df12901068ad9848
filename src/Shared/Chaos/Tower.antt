-- ===== src/Shared/Chaos/Tower.antt =====
-- The Tower side of shared/src/chaos.rs: the layer, and a middleware that owns the service behind it.
pub mod Readiness
use secure_net.Base.{ℕ, String, Bool, Option, if◌then◌else◌}
use secure_net.Base.Result.{Result}
use secure_net.Shared.Chaos
use secure_net.Shared.Chaos.{ChaosConfig, Double, Draws, from_env, is_noop, faulty, lt}

pub data Poll (A : Type 0) : Type 0 where
  pending : Poll A
  ready : A → Poll A

-- What is left to do for a request, which changes the world `W` when it is awaited.
abbrev pub Future : Type 0 → Type 0 → Type 0 → Type 0
Future W R E = W → Result R E × W

-- `Service<Request> + Clone` of the tower crate. `call` may do some of the work before its future is
-- awaited.
pub record Service (W Req R E : Type 0) : Type 1 where
  pub Inner : Type 0
  pub clone : Inner → Inner
  pub poll_ready : Inner → W → Poll (Result (Unit {0}) E) × Inner × W
  pub call : Inner → Req → W → Future W R E × Inner × W

pub record ChaosLayer : Type 0 where
  pub config : ChaosConfig

abbrev pub layer_from_env : (String → Option Double) → Option String → Option String → ChaosLayer
layer_from_env parse delay drop = record { config = from_env parse delay drop }

module _ {W Req R E : Type 0} (S : Service W Req R E) where
  pub record ChaosMiddleware : Type 0 where
    pub inner : S.Inner
    pub config : ChaosConfig

  abbrev pub layer : ChaosLayer → S.Inner → ChaosMiddleware
  layer l inner = record { inner = inner; config = l.config }

  -- `inner.call(req).await` on a service that the future owns.
  abbrev pub call_and_wait : S.Inner → Req → Future W R E
  call_and_wait inner req w = let (future, _, w') = S.call inner req w in future w'

  unfoldable pub poll_ready : ChaosMiddleware → W → Poll (Result (Unit {0}) E) × ChaosMiddleware × W
  poll_ready m w =
      let (answer, inner, w') = S.poll_ready m.inner w in (answer, record m { inner = inner }, w')

  -- `std::mem::swap` gives the future the service that was polled, and keeps its clone.
  module _ (sleep : ℕ → W → W) (dropped : R) where
    unfoldable pub call : ChaosMiddleware → Req → Draws → W → Future W R E × ChaosMiddleware × W
    call m req draws w =
        let (future, inner, w') = S.call m.inner req w in
        if is_noop m.config then (future, record m { inner = inner }, w') else (
          faulty (call_and_wait m.inner req) sleep dropped (lt draws.drop_roll m.config.drop_p)
              (lt draws.delay_roll m.config.delay_p) draws.delay_ms,
          record m { inner = S.clone m.inner },
          w,
        )

    -- The middleware is again a service; a request comes with its rolls.
    abbrev pub middleware : Service W (Req × Draws) R E
    middleware = record {
      Inner = ChaosMiddleware;
      clone = λ m. record m { inner = S.clone m.inner };
      poll_ready = poll_ready;
      call = λ m (req, draws) w. call m req draws w;
    }
