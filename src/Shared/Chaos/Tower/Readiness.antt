-- ===== src/Shared/Chaos/Tower/Readiness.antt =====
-- Clients of the chaos middleware, and which services it calls for them.
use secure_net.Base.{
  ℕ, Bool, true, false, List, [], ◌∷◌, ◌++◌, ◌≡◌, subst, arith, All, inl, inr, Bool-cases,
}
use secure_net.Base.Result.{Result, ok, err}
use secure_net.Shared.Chaos.{Draws, is_noop, faulty, lt}
use secure_net.Shared.Chaos.Tower.{
  Poll, pending, ready, Future, Service, ChaosMiddleware, poll_ready, call, call_and_wait,
  middleware,
}

abbrev is_ready : {E : Type 0} → Poll (Result (Unit {0}) E) → Bool
is_ready (ready (ok _)) = true
is_ready (ready (err _)) = false
is_ready pending = false

module _ {W Req R E : Type 0} where
  -- A client has a service, knows whether its last poll said that it is ready, and has futures that
  -- it has not awaited yet.
  pub record Client (T : Service W Req R E) : Type 0 where
    pub service : T.Inner
    pub may_call : Bool
    pub futures : List (Future W R E)
    pub world : W

  module _ (T : Service W Req R E) where
    -- A client keeps to the contract of `Service`: it calls only after a poll that said ready, and
    -- polls again before the next call. It awaits the futures in any order.
    pub data Step : Client T → Client T → Type 0 where
      polled :
          (c : Client T)
          → Step c (record c {
            service = (T.poll_ready c.service c.world).1;
            may_call = is_ready (T.poll_ready c.service c.world).0;
            world = (T.poll_ready c.service c.world).2;
          })
      cloned : (c : Client T) → Step c (record c { service = T.clone c.service; may_call = false })
      called :
          (c : Client T) (req : Req)
          → c.may_call ≡ true
          → Step c (record {
            service = (T.call c.service req c.world).1;
            may_call = false;
            futures = (T.call c.service req c.world).0 ∷ c.futures;
            world = (T.call c.service req c.world).2;
          })
      awaited :
          (c : Client T) (before after : List (Future W R E)) (f : Future W R E)
          → c.futures ≡ before ++ (f ∷ after)
          → Step c (record c { futures = before ++ after; world = (f c.world).1 })

    pub data Reach (c : Client T) : Client T → Type 0 where
      here : Reach c c
      next : {u v : Client T} → Reach c u → Step u v → Reach c v

module _ {W Req R E : Type 0} (S : Service W Req R E) where
  -- A service that also lists the states in which it is called, from the last one on.
  abbrev pub recording : Service (W × List S.Inner) Req R E
  recording = record {
    Inner = S.Inner;
    clone = S.clone;
    poll_ready = λ inner (w, log).
        let (answer, inner', w') = S.poll_ready inner w in (answer, inner', (w', log));
    call = λ inner req (w, log).
        let (future, inner', w') = S.call inner req w in
        (λ (v, log'). let (reply, v') = future v in (reply, (v', log')), inner', (w', inner ∷ log));
  }

  abbrev pub on_world : (ℕ → W → W) → ℕ → W × List S.Inner → W × List S.Inner
  on_world sleep ms (w, log) = (sleep ms w, log)

  module _ (sleep : ℕ → W → W) (dropped : R) (IsReady : S.Inner → Type 0)
      (polls : (inner : S.Inner) (w : W)
        → is_ready (S.poll_ready inner w).0 ≡ true
        → IsReady (S.poll_ready inner w).1) where
    abbrev Chaotic : Service (W × List S.Inner) (Req × Draws) R E
    Chaotic = middleware recording (on_world sleep) dropped

    -- A future that calls only services that are ready.
    abbrev Keeps : Future (W × List S.Inner) R E → Type 0
    Keeps f = (w : W × List S.Inner) → All IsReady w.1 → All IsReady (f w).1.1

    faulty-Keeps :
        (f : Future (W × List S.Inner) R E) (should_drop should_delay : Bool) (ms : ℕ)
        → Keeps f
        → Keeps (faulty f (on_world sleep) dropped should_drop should_delay ms)
    unfolding faulty
    faulty-Keeps f true should_delay ms h w all = all
    faulty-Keeps f false true ms h w all = h (on_world sleep ms w) all
    faulty-Keeps f false false ms h w all = h w all

    abbrev IsGood : Client Chaotic → Type 0
    IsGood c =
        (c.may_call ≡ true → IsReady c.service.inner) × All Keeps c.futures × All IsReady c.world.1

    All_without :
        (before after : List (Future (W × List S.Inner) R E)) (f : Future (W × List S.Inner) R E)
        → All Keeps (before ++ (f ∷ after))
        → Keeps f × All Keeps (before ++ after)
    All_without [] after f h = h
    All_without (g ∷ before) after f (k, h) =
        let (m, rest) = All_without before after f h in (m, (k, rest))

    call-IsGood :
        (m : ChaosMiddleware recording) (req : Req) (draws : Draws) (w : W × List S.Inner)
        → IsReady m.inner
        → All IsReady w.1
        → Keeps (call recording (on_world sleep) dropped m req draws w).0
          × All IsReady (call recording (on_world sleep) dropped m req draws w).2.1
    unfolding call
    call-IsGood m req draws w is_ready' all = elim (Bool-cases (is_noop m.config)) [
      | inl idle ↦ rw idle ((λ v all'. all'), (is_ready', all))
      | inr active ↦ rw active (
        faulty-Keeps (call_and_wait recording m.inner req) (lt draws.drop_roll m.config.drop_p)
            (lt draws.delay_roll m.config.delay_p) draws.delay_ms (λ v all'. (is_ready', all')),
        all,
      )
    ]

    Step-IsGood : (u v : Client Chaotic) → Step Chaotic u v → IsGood u → IsGood v
    unfolding poll_ready
    Step-IsGood u v (polled c) (may, kept, all) = (polls c.service.inner c.world.0, kept, all)
    Step-IsGood u v (cloned c) (may, kept, all) = ((λ h. absurd (ground arith)), kept, all)
    Step-IsGood u v (called c (req, draws) allowed) (may, kept, all) =
        let (k, all') = call-IsGood c.service req draws c.world (may allowed) all in
        ((λ h. absurd (ground arith)), (k, kept), all')
    Step-IsGood u v (awaited c before after f same) (may, kept, all) =
        let (k, rest) = All_without before after f (subst (All Keeps) same kept) in
        (may, rest, k c.world all)

    Reach-IsGood : (c d : Client Chaotic) → Reach Chaotic c d → IsGood c → IsGood d
    Reach-IsGood c d here good = good
    Reach-IsGood c d (next {u} r s) good = Step-IsGood u d s (Reach-IsGood c u r good)

    -- However a client polls, clones, calls and awaits, as long as it calls only after a poll that
    -- said ready, the chaos middleware calls the service behind it only in states that have what
    -- every poll that says ready ensures: it calls the service that was polled, not its clone.
    pub only_ready_called :
        (l : ChaosMiddleware recording) (w : W) (c : Client Chaotic)
        → Reach Chaotic (record { service = l; may_call = false; futures = []; world = (w, []) }) c
        → All IsReady c.world.1
    only_ready_called l w c r =
        (Reach-IsGood (record { service = l; may_call = false; futures = []; world = (w, []) }) c r
          ((λ h. absurd (ground arith)), tt, tt)).2
