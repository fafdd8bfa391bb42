-- ===== src/Llm/RateLimit/Windows.antt =====
-- The requests that clients send through the limiter (rate_limit.rs), counted in any window of time. Between the
-- check that lets a request through and its record, when it is completed, others may be checked.
use wacp_platform.Prelude.{
  ℕ, ◌+◌, ◌-◌, ◌≤◌, ◌<◌, Bool, true, ◌&&◌, List, [], ◌∷◌, ◌++◌, count_if, count_if-append, ltb, leb,
  ok, err, Result, Result-cases, ◌≡◌, refl, arith, sym, Bool-cases, inl, inr, all, all-append,
  subst,
}
use wacp_platform.Llm.RateLimit.{
  RateLimitConfig, RateLimitState, new, pruned, check, record_request,
}
use wacp_platform.Llm.RateLimit.Log.{
  IsLogged, check-below, pruned-IsLogged, recorded-IsLogged, later-IsLogged, recorded_since,
}

-- A request is checked before it is sent and recorded when it is completed. Times are those of the calls.
pub data Call : Type 0 where
  checks : ℕ → ℕ → Call
  records : ℕ → ℕ → Call

abbrev pub time_of : Call → ℕ
time_of (checks now _) = now
time_of (records now _) = now

-- The limiter, the times at which requests were sent and recorded, and how many are on their way.
pub record Traffic : Type 0 where
  pub limiter : RateLimitState
  pub sent : List ℕ
  pub recorded : List ℕ
  pub open_requests : ℕ

abbrev pub quiet : Traffic
quiet = record { limiter = new; sent = []; recorded = []; open_requests = 0 }

abbrev pub send : ℕ → RateLimitState × Result ℕ (Unit {0}) → Traffic → Traffic
send now (s, err wait) w = record w { limiter = s }
send now (s, ok _) w = record w {
  limiter = s;
  sent = w.sent ++ now ∷ [];
  open_requests = w.open_requests + 1;
}

unfoldable pub step : RateLimitConfig → Call → Traffic → Traffic
unfolding check record_request
step config (checks now tokens) w = send now (check config now tokens w.limiter) w
step config (records now tokens) w = record w {
  limiter = record_request now tokens w.limiter;
  recorded = w.recorded ++ now ∷ [];
  open_requests = w.open_requests - 1;
}

unfoldable pub run : RateLimitConfig → List Call → Traffic → Traffic
unfolding step
run config [] w = w
run config (c ∷ cs) w = run config cs (step config c w)

-- Times that do not go back, from a time on.
abbrev pub is_forward : ℕ → List Call → Bool
is_forward now [] = true
is_forward now (c ∷ cs) = leb now (time_of c) && is_forward (time_of c) cs

abbrev pub is_legal : Call → Traffic → Bool
is_legal (checks now tokens) w = true
is_legal (records now tokens) w = ltb 0 w.open_requests

-- Whether only requests that are on their way are recorded, and at most `most` are at any time.
unfoldable pub is_parallel : RateLimitConfig → ℕ → List Call → Traffic → Bool
unfolding step
is_parallel config most [] w = true
is_parallel config most (c ∷ cs) w =
    let next = step config c w in
    is_legal c w && (leb next.open_requests most && is_parallel config most cs next)

abbrev pub within : ℕ → ℕ → ℕ → Bool
within from window t = leb from t && leb t (from + window)

within-since :
    (from window : ℕ) (xs : List ℕ) → count_if (within from window) xs ≤ count_if (leb from) xs
within-since from window [] = omega arith
within-since from window (x ∷ xs) = ground (arith, within-since from window xs)

-- How many of the requests sent lie in the window that begins at `from`.
abbrev pub in_window : RateLimitConfig → ℕ → List ℕ → ℕ
in_window config from sent = count_if (within from config.window) sent

-- What every call keeps: a request that was sent is recorded or on its way.
record Keeps (config : RateLimitConfig) (most now from : ℕ) (w : Traffic) : Type 0 where
  pub logged : IsLogged config now (w.limiter, w.recorded)
  pub past : all (λ t. leb t now) w.sent ≡ true
  pub known : count_if (leb from) w.sent ≤ count_if (leb from) w.recorded + w.open_requests
  pub fits : in_window config from w.sent + 1 ≤ config.max_requests_per_window + most

later_past :
    (a b : ℕ) (xs : List ℕ) → a ≤ b → all (λ t. leb t a) xs ≡ true → all (λ t. leb t b) xs ≡ true
later_past a b [] h k = refl
later_past a b (x ∷ xs) h k = ground (arith, later_past a b xs)

past_since :
    (now from : ℕ) (xs : List ℕ)
    → now < from
    → all (λ t. leb t now) xs ≡ true
    → count_if (leb from) xs ≡ 0
past_since now from [] h k = refl
past_since now from (x ∷ xs) h k = ground (arith, past_since now from xs)

passed-Keeps :
    (config : RateLimitConfig) (most before now tokens from : ℕ) (w : Traffic)
    → 0 < config.max_requests_per_window
    → before ≤ now
    → w.open_requests + 1 ≤ most
    → (check config now tokens w.limiter).1 ≡ ok tt
    → Keeps config most before from w
    → Keeps config most now from (send now (pruned config now w.limiter, ok tt) w)
passed-Keeps config most before now tokens from w on later room allowed inv =
    let kept = pruned-IsLogged config before now w.limiter w.recorded later inv.logged in
    let below = check-below config now tokens w.limiter on allowed in
    let p = within from config.window in
    let added = count_if-append p w.sent (now ∷ []) in
    let since = count_if-append (leb from) w.sent (now ∷ []) in
    record {
      logged = kept;
      past = ground (
        arith,
        all-append (λ t. leb t now) w.sent (now ∷ []),
        later_past before now w.sent later inv.past,
      );
      known = ground (arith, since, inv.known);
      fits = elim (Bool-cases (p now)) [
        | inr outside ↦ ground (arith, added, outside, inv.fits)
        | inl inside ↦
            let reach : now - config.window ≤ from = ground (arith, inside) in
            ground (
              arith,
              added,
              inside,
              below,
              inv.known,
              within-since from config.window w.sent,
              recorded_since config now from (pruned config now w.limiter) w.recorded reach kept,
            )
      ];
    }

step-Keeps :
    (config : RateLimitConfig) (most before from : ℕ) (c : Call) (w : Traffic)
    → 0 < config.max_requests_per_window
    → before ≤ time_of c
    → is_legal c w ≡ true
    → (step config c w).open_requests ≤ most
    → Keeps config most before from w
    → Keeps config most (time_of c) from (step config c w)
unfolding step check
step-Keeps config most before from (checks now tokens) w on later legal room inv =
    let kept = pruned-IsLogged config before now w.limiter w.recorded later inv.logged in
    elim (Result-cases (check config now tokens w.limiter).1) [
      | inr (wait, refused) ↦
          let same : step config (checks now tokens) w
              ≡ record w { limiter = pruned config now w.limiter } =
            ground (arith, refused) in
          subst (Keeps config most now from) (sym same) (record {
            logged = kept;
            past = later_past before now w.sent later inv.past;
            known = inv.known;
            fits = inv.fits;
          })
      | inl (u, allowed) ↦
          let same : step config (checks now tokens) w
              ≡ send now (pruned config now w.limiter, ok tt) w =
            ground (arith, allowed) in
          subst (Keeps config most now from) (sym same) (
            passed-Keeps config most before now tokens from w on later (ground (arith, same))
              allowed inv)
    ]
step-Keeps config most before from (records now tokens) w on later legal room inv =
    let since = count_if-append (leb from) w.recorded (now ∷ []) in
    let past = later_past before now w.sent later inv.past in
    record {
      logged =
          recorded-IsLogged config now tokens w.limiter w.recorded
            (later-IsLogged config before now w.limiter w.recorded later inv.logged);
      past = past;
      known = elim (Bool-cases (leb from now)) [
        | inl early ↦ ground (arith, since, inv.known, early)
        | inr late ↦ ground (arith, past_since now from w.sent (ground (arith, late)) past)
      ];
      fits = inv.fits;
    }

run-Keeps :
    (config : RateLimitConfig) (most now from : ℕ) (cs : List Call) (w : Traffic)
    → 0 < config.max_requests_per_window
    → is_forward now cs ≡ true
    → is_parallel config most cs w ≡ true
    → Keeps config most now from w
    → in_window config from (run config cs w).sent + 1 ≤ config.max_requests_per_window + most
unfolding run is_parallel
run-Keeps config most now from [] w on forward parallel inv = inv.fits
run-Keeps config most now from (c ∷ cs) w on forward parallel inv =
    let kept =
      step-Keeps config most now from c w on (ground arith) (ground arith) (ground arith) inv in
    run-Keeps config most (time_of c) from cs (step config c w) on (ground arith) (ground arith)
      kept

-- With a limit on requests, clients that send only what the limiter lets through and record a request, at
-- most once, after it was sent, at times that do not go back and with at most `most` requests sent and not yet
-- recorded, send in any window of time at most `most - 1` requests more than the limit. A client that
-- records each request before it checks the next one keeps the limit.
pub window-limited :
    (config : RateLimitConfig) (most : ℕ) (cs : List Call) (from : ℕ)
    → 0 < config.max_requests_per_window
    → is_forward 0 cs ≡ true
    → is_parallel config most cs quiet ≡ true
    → in_window config from (run config cs quiet).sent + 1 ≤ config.max_requests_per_window + most
window-limited config most cs from on forward parallel =
    run-Keeps config most 0 from cs quiet on forward parallel (record {
      logged = record { old = []; all_old = refl; split = refl };
      past = refl;
      known = omega arith;
      fits = omega arith;
    })
