-- ===== src/Llm/RateLimit/Log.antt =====
-- The log of the limiter (rate_limit.rs) beside all the requests that were recorded.
use wacp_platform.Prelude.{
  ℕ, ◌-◌, ◌≤◌, ◌<◌, Bool, true, List, [], ◌∷◌, ◌++◌, length, count_if, count_if-append, ltb, leb,
  ok, ◌≡◌, refl, arith, ap, ◌∙◌, sym, Bool-cases, inl, inr, all, all-append, append_assoc,
}
use wacp_platform.Llm.RateLimit.{
  RateLimitConfig, RateLimitState, prune_requests, pruned, check, record_request,
}

-- What was recorded is what was pruned, all of it older than the window that ends now, and the log.
pub record IsLogged (config : RateLimitConfig) (now : ℕ) (state : RateLimitState × List ℕ)
    : Type 0 where
  pub old : List ℕ
  pub all_old : all (λ t. ltb t (now - config.window)) old ≡ true
  pub split : state.1 ≡ old ++ state.0.request_log

prune-splits :
    (cutoff : ℕ) (log : List ℕ)
    → (old : List ℕ) × (all (λ t. ltb t cutoff) old ≡ true)
      × (log ≡ old ++ prune_requests cutoff log)
unfolding prune_requests
prune-splits cutoff [] = ([], refl, refl)
prune-splits cutoff (t ∷ log) = elim (Bool-cases (ltb t cutoff)) [
  | inl early ↦
      let (old, all_old, split) = prune-splits cutoff log in
      let next : prune_requests cutoff (t ∷ log) ≡ prune_requests cutoff log =
        ground (arith, early) in
      (t ∷ old, ground (arith, early), ap (◌∷◌ t) (split ∙ ap (λ z. old ++ z) (sym next)))
  | inr late ↦ ([], refl, ground (arith, late))
]

older :
    (a b : ℕ) (xs : List ℕ) → a ≤ b → all (λ t. ltb t a) xs ≡ true → all (λ t. ltb t b) xs ≡ true
older a b [] h k = refl
older a b (x ∷ xs) h k = ground (arith, older a b xs)

none_since :
    (cutoff from : ℕ) (xs : List ℕ)
    → cutoff ≤ from
    → all (λ t. ltb t cutoff) xs ≡ true
    → count_if (leb from) xs ≡ 0
none_since cutoff from [] h k = refl
none_since cutoff from (x ∷ xs) h k = ground (arith, none_since cutoff from xs)

count-length : (p : ℕ → Bool) (xs : List ℕ) → count_if p xs ≤ length xs
count-length p [] = omega arith
count-length p (x ∷ xs) = ground (arith, count-length p xs)

-- The limiter lets a request through only if the pruned log is below the limit.
pub check-below :
    (config : RateLimitConfig) (now tokens : ℕ) (s : RateLimitState)
    → 0 < config.max_requests_per_window
    → (check config now tokens s).1 ≡ ok tt
    → length (pruned config now s).request_log < config.max_requests_per_window
unfolding check
check-below config now tokens s on h = ground arith

pub pruned-IsLogged :
    (config : RateLimitConfig) (before now : ℕ) (s : RateLimitState) (sent : List ℕ)
    → before ≤ now
    → IsLogged config before (s, sent)
    → IsLogged config now (pruned config now s, sent)
pruned-IsLogged config before now s sent later inv =
    let cutoff = now - config.window in
    let (gone, all_gone, split) = prune-splits cutoff s.request_log in
    record {
      old = inv.old ++ gone;
      all_old = ground (
        arith,
        all-append (λ t. ltb t cutoff) inv.old gone,
        all_gone,
        older (before - config.window) cutoff inv.old (omega arith) inv.all_old,
      );
      split =
          inv.split
          ∙ (ap (λ z. inv.old ++ z) split
              ∙ sym (append_assoc inv.old gone (prune_requests cutoff s.request_log)));
    }

pub recorded-IsLogged :
    (config : RateLimitConfig) (now tokens : ℕ) (s : RateLimitState) (sent : List ℕ)
    → IsLogged config now (s, sent)
    → IsLogged config now (record_request now tokens s, sent ++ now ∷ [])
unfolding record_request
recorded-IsLogged config now tokens s sent inv = record {
  old = inv.old;
  all_old = inv.all_old;
  split = ap (λ z. z ++ now ∷ []) inv.split ∙ append_assoc inv.old s.request_log (now ∷ []);
}

pub later-IsLogged :
    (config : RateLimitConfig) (before now : ℕ) (s : RateLimitState) (recorded : List ℕ)
    → before ≤ now
    → IsLogged config before (s, recorded)
    → IsLogged config now (s, recorded)
later-IsLogged config before now s recorded later inv = record {
  old = inv.old;
  all_old = older (before - config.window) (now - config.window) inv.old (omega arith) inv.all_old;
  split = inv.split;
}

-- The recorded requests since a time in the current window are in the log.
pub recorded_since :
    (config : RateLimitConfig) (now from : ℕ) (s : RateLimitState) (recorded : List ℕ)
    → now - config.window ≤ from
    → IsLogged config now (s, recorded)
    → count_if (leb from) recorded ≤ length s.request_log
recorded_since config now from s recorded reach inv =
    let split =
      ap (count_if (leb from)) inv.split ∙ count_if-append (leb from) inv.old s.request_log in
    ground (
      arith,
      split,
      none_since (now - config.window) from inv.old reach inv.all_old,
      count-length (leb from) s.request_log,
    )
