-- ===== src/Shared/ChaosTests.antt =====
-- The chaos middleware around a service that must be polled before each call.
use secure_net.Base.{
  ℕ, ◌+◌, ◌≡◌, refl, String, Bool, true, false, some, none, Option, List, [], ◌∷◌, text_eq, ◌==◌,
  if◌then◌else◌, All,
}
use secure_net.Base.Result.{ok}
use secure_net.Shared.Chaos.{
  Double, pos, unit, lt, is_zero, probability, from_env, is_noop, Draws, faulty,
}
use secure_net.Shared.Chaos.Tower.{
  ready, Service, ChaosMiddleware, layer, layer_from_env, poll_ready, call, call_and_wait,
  middleware,
}
use secure_net.Shared.Chaos.Tower.Readiness.{
  Client, Step, Reach, here, next, polled, called, awaited, recording, on_world, only_ready_called,
}

program : Unit {0}
unfolding call poll_ready faulty from_env probability is_noop is_zero lt unit
program = tt

abbrev draws : Draws
draws = record { drop_roll = pos 3; delay_roll = pos 7; delay_ms = 250 }

abbrev parse : String → Option Double
parse v = if v == "1" then some (pos unit) else none

-- The state tells whether the service was polled. The world counts milliseconds.
abbrev limited : Service ℕ String String String
limited = record {
  Inner = Bool;
  clone = λ polled_before. false;
  poll_ready = λ polled_before w. (ready (ok tt), true, w);
  call = λ polled_before req w. (λ v. (ok req, v), false, w);
}

abbrev sleep : ℕ → ℕ → ℕ
sleep ms w = w + ms

delayed :
    call_and_wait
      (middleware limited sleep "dropped")
      (layer limited (layer_from_env parse (some "1") (some "no number")) true)
      ("served", draws)
      0
    ≡ (ok "served", 250)
unfolding program
delayed = refl

abbrev Chaotic : Service (ℕ × List Bool) (String × Draws) String String
Chaotic = middleware (recording limited) (on_world limited sleep) "dropped"

abbrev layered : ChaosMiddleware (recording limited)
layered = layer (recording limited) (layer_from_env parse (some "1") none) false

abbrev start : Client Chaotic
start = record { service = layered; may_call = false; futures = []; world = (0, []) }

abbrev asked : Client Chaotic
asked = record start { service = record layered { inner = true }; may_call = true }

asks : Step Chaotic start asked
unfolding program
asks = polled start

-- After a poll, a call of which the middleware has kept the clone, and the end of the pause.
abbrev waiting : Client Chaotic
waiting = record {
  service = (Chaotic.call asked.service ("hello", draws) asked.world).1;
  may_call = false;
  futures = (Chaotic.call asked.service ("hello", draws) asked.world).0 ∷ [];
  world = (Chaotic.call asked.service ("hello", draws) asked.world).2;
}

abbrev answered : Client Chaotic
answered = record waiting {
  futures = [];
  world = ((Chaotic.call asked.service ("hello", draws) asked.world).0 waiting.world).1;
}

runs : Reach Chaotic start answered
runs =
    next (next (next here asks) (called asked ("hello", draws) refl))
      (awaited waiting [] [] ((Chaotic.call asked.service ("hello", draws) asked.world).0) refl)

once : answered.world ≡ (250, true ∷ [])
unfolding program
once = refl

only_ready_called_example : All (λ polled_before. polled_before ≡ true) answered.world.1
only_ready_called_example =
    only_ready_called limited sleep "dropped" (λ polled_before. polled_before ≡ true)
      (λ inner w h. refl) layered 0 answered runs
