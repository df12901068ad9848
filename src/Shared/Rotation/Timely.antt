-- ===== src/Shared/Rotation/Timely.antt =====
-- Whether the task replaces a certificate before it expires.
use secure_net.Base.{
  ℕ, zero, suc, ◌+◌, ◌*◌, ◌≤◌, ◌<◌, ◌≡◌, sym, ap, ◌∙◌, subst, String, Bool, arith,
}
use secure_net.Base.Result.{ok}
use secure_net.External.Rustls.{Rustls}
use secure_net.Shared.Models.{CertBundle, nanos_per_sec, ttl_secs}
use secure_net.Shared.Rotation.Sleep.{sleep_secs}
use secure_net.Shared.Rotation.Sleep.Laws.{sleep_secs_bounds}
use secure_net.Shared.Rotation.{
  Runtime, retry_renew, config_for, Rotation, install, round, rotation_loop,
}

-- 2^49 s, more than a certificate lives.
abbrev pub longest : ℕ
longest = 562949953421312

module _ {S : Type 0} (rt : Runtime S) (tls : Rustls) (service_name : String) (is_gateway : Bool)
    (slack life : ℕ) (IsFit : S → Type 0) where
  -- A bundle that makes a configuration and lives for at least `life` seconds from `now` on.
  pub record IsLasting (now : ℕ) (bundle : CertBundle) : Type 0 where
    pub config : tls.ServerConfig
    pub built : config_for tls is_gateway bundle ≡ ok config
    pub lasts : now + life * nanos_per_sec ≤ bundle.expires_at
    pub bounded : bundle.expires_at < now + longest * nanos_per_sec

  -- From a fit state a sleep and a renewal lead to a fit one, take `slack` nanoseconds more than they
  -- should at most, and the renewal gives a lasting bundle.
  pub record IsPrompt : Type 0 where
    pub sleeps :
        (n : ℕ) (s : S)
        → IsFit s
        → (rt.now (rt.sleep n s) ≤ rt.now s + n * nanos_per_sec + slack) × IsFit (rt.sleep n s)
    pub renews :
        (s : S)
        → IsFit s
        → (bundle : CertBundle) × ((rt.renew service_name s).0 ≡ ok bundle)
          × IsLasting (rt.now (rt.renew service_name s).1) bundle
          × (rt.now (rt.renew service_name s).1 ≤ rt.now s + slack)
          × IsFit (rt.renew service_name s).1

  -- The installed configuration is that of a bundle which has the time that the task reckons with.
  pub record IsTimely (st : Rotation tls × S) : Type 0 where
    pub bundle : CertBundle
    pub built : config_for tls is_gateway bundle ≡ ok st.0.config.inner
    pub alive : rt.now st.1 + st.0.ttl * nanos_per_sec ≤ bundle.expires_at
    pub long : life ≤ st.0.ttl
    pub small : st.0.ttl < longest
    pub kind : st.0.config.is_gateway ≡ is_gateway
    pub fit : IsFit st.1

  first_attempt :
      (s : S) (bundle : CertBundle)
      → (rt.renew service_name s).0 ≡ ok bundle
      → retry_renew rt service_name 3 s ≡ (ok bundle, (rt.renew service_name s).1)
  unfolding retry_renew
  first_attempt s bundle renewed = ground arith

  -- The task after the installation of a bundle.
  abbrev installed : Rotation tls → tls.ServerConfig → CertBundle → ℕ → Rotation tls
  installed rot config bundle now = record {
    config = record rot.config { inner = config; serial = bundle.serial };
    ttl = ttl_secs bundle now;
  }

  install-installed :
      (rot : Rotation tls) (config : tls.ServerConfig) (bundle : CertBundle) (now : ℕ)
      → config_for tls rot.config.is_gateway bundle ≡ ok config
      → install tls (ok bundle) now rot ≡ installed rot config bundle now
  unfolding install
  install-installed rot config bundle now built = ground arith

  round_lem :
      (rot : Rotation tls) (s : S) (config : tls.ServerConfig) (bundle : CertBundle)
      → (rt.renew service_name (rt.sleep (sleep_secs rot.ttl) s)).0 ≡ ok bundle
      → config_for tls rot.config.is_gateway bundle ≡ ok config
      → round rt tls service_name (rot, s) ≡ (
        installed rot config bundle
            (rt.now (rt.renew service_name (rt.sleep (sleep_secs rot.ttl) s)).1),
        (rt.renew service_name (rt.sleep (sleep_secs rot.ttl) s)).1,
      )
  unfolding round
  round_lem rot s config bundle renewed built =
      let after = (rt.renew service_name (rt.sleep (sleep_secs rot.ttl) s)).1 in
      ap (λ (r, s'). (install tls r (rt.now s') rot, s'))
        (first_attempt (rt.sleep (sleep_secs rot.ttl) s) bundle renewed)
      ∙ ap (λ r. (r, after)) (install-installed rot config bundle (rt.now after) built)

  -- The task reckons with whole seconds, no fewer than the bundle lives for and no more than it has.
  pub ttl_secs_bounds :
      (bundle : CertBundle) (now : ℕ)
      → IsLasting now bundle
      → (now + ttl_secs bundle now * nanos_per_sec ≤ bundle.expires_at)
        × (life ≤ ttl_secs bundle now)
        × (ttl_secs bundle now < longest)
  unfolding ttl_secs
  ttl_secs_bounds bundle now h = (
    omega (arith, h.lasts, h.bounded),
    omega (arith, h.lasts, h.bounded),
    omega (arith, h.lasts, h.bounded),
  )

  -- What a turn leads to, and that the bundle which it replaces has not expired at its end.
  round-IsTimely :
      (rot : Rotation tls) (s : S)
      → IsPrompt
      → 20 * slack ≤ life * nanos_per_sec
      → (h : IsTimely (rot, s))
      → IsTimely (round rt tls service_name (rot, s))
        × (rt.now (round rt tls service_name (rot, s)).1 ≤ h.bundle.expires_at)
  round-IsTimely rot s prompt tight h =
      let woken = rt.sleep (sleep_secs rot.ttl) s in
      let (slept, rested) = prompt.sleeps (sleep_secs rot.ttl) s h.fit in
      let (bundle, renewed, lasting, quick, fit) = prompt.renews woken rested in
      let after = (rt.renew service_name woken).1 in
      let (below, above) = sleep_secs_bounds rot.ttl h.small in
      let (alive, long, small) = ttl_secs_bounds bundle (rt.now after) lasting in
      let built = ap (λ g. config_for tls g bundle) h.kind ∙ lasting.built in
      let in_time : rt.now after ≤ h.bundle.expires_at =
        omega (arith, quick, slept, below, h.alive, h.long, tight) in
      subst (λ st. IsTimely st × (rt.now st.1 ≤ h.bundle.expires_at))
        (sym (round_lem rot s lasting.config bundle renewed built))
        (
          record {
            bundle = bundle;
            built = lasting.built;
            alive = alive;
            long = long;
            small = small;
            kind = h.kind;
            fit = fit;
          },
          in_time,
        )

  rotation_loop-IsTimely :
      (n : ℕ) (rot : Rotation tls) (s : S)
      → IsPrompt
      → 20 * slack ≤ life * nanos_per_sec
      → IsTimely (rot, s)
      → IsTimely (rotation_loop rt tls service_name n (rot, s))
  unfolding rotation_loop
  rotation_loop-IsTimely zero rot s prompt tight h = h
  rotation_loop-IsTimely (suc n) rot s prompt tight h =
      let (h', _) = round-IsTimely rot s prompt tight h in
      rotation_loop-IsTimely n (round rt tls service_name (rot, s)).0
        (round rt tls service_name (rot, s)).1 prompt tight h'

  -- If every renewal gives a bundle that makes a configuration and lives for `life` seconds or more, and
  -- if a renewal takes, and a sleep overruns by, at most a twentieth of that, all of this from states
  -- in which a condition holds that sleeps and renewals preserve, then the certificate that is installed
  -- after any number of turns has not expired when the next turn ends, which replaces it. At the start
  -- the condition holds and the installed certificate has at least the lifetime that the task reckons
  -- with, which is `life` seconds or more and less than 2^49 s.
  pub replaced_in_time :
      (n : ℕ) (rot : Rotation tls) (s : S)
      → IsPrompt
      → 20 * slack ≤ life * nanos_per_sec
      → IsTimely (rot, s)
      → (bundle : CertBundle) × (config_for tls is_gateway bundle
          ≡ ok (rotation_loop rt tls service_name n (rot, s)).0.config.inner)
        × (rt.now (round rt tls service_name (rotation_loop rt tls service_name n (rot, s))).1
            ≤ bundle.expires_at)
  replaced_in_time n rot s prompt tight h =
      let st = rotation_loop rt tls service_name n (rot, s) in
      let timely = rotation_loop-IsTimely n rot s prompt tight h in
      (timely.bundle, timely.built, (round-IsTimely st.0 st.1 prompt tight timely).1)
