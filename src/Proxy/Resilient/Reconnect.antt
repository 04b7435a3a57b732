-- ===== src/Proxy/Resilient/Reconnect.antt =====
-- src/proxy/resilient.rs: the retry loop.
use gsc_fq.Common.{
  ℕ, zero, suc, ◌+◌, ◌-◌, ◌≤◌, ◌<◌, ◌≡◌, ◌⊎◌, inl, inr, refl, ap, ◌∙◌, Bool, true, false, [], ◌∷◌,
  arith, ltb, max, if◌then◌else◌, length, All, Bool-cases,
}
use gsc_fq.Common.Results.{ok, err}
use gsc_fq.Proxy.Resilient.{
  ConnectionQuality, ReconnectConfig, Manager, Attempt, connected, failed, timed_out, reset_errors,
  record_error, connection_failed, Retried, next_delay, retry, connect_with_retry,
}

module _ {ℓ} {S : Type ℓ} where
  abbrev pub missed : Attempt S → Bool
  missed (connected s) = false
  missed failed = true
  missed timed_out = true

  pub AllMissed : (ℕ → Attempt S) → ℕ → ℕ → Type 0
  AllMissed net from n = (j : ℕ) → j < n → missed (net (from + j)) ≡ true

  -- The first attempt that connects gives the stream; if none does, the loop reports a failure.
  pub record Won (net : ℕ → Attempt S) (from left : ℕ) (r : Retried S) : Type ℓ where
    pub at : ℕ
    pub stream : S
    pub within : at < left
    pub is : net (from + at) ≡ connected stream
    pub before : AllMissed net from at
    pub result : r.outcome ≡ ok stream
    pub cleared : r.quality.error_count ≡ 0
    pub waited : length r.waits ≡ at

  pub record Lost (net : ℕ → Attempt S) (from left : ℕ) (r : Retried S) : Type ℓ where
    pub none_won : AllMissed net from left
    pub result : r.outcome ≡ err connection_failed
    pub waited : length r.waits ≡ left - 1

  Attempt-cases : (a : Attempt S) → ((s : S) × (a ≡ connected s)) ⊎ (missed a ≡ true)
  Attempt-cases (connected s) = inl (s, refl)
  Attempt-cases failed = inr refl
  Attempt-cases timed_out = inr refl

  elim_missed :
      {B : Type ℓ} (a : Attempt S) (won : S → B) (lost : B)
      → missed a ≡ true
      → (elim a [ connected s ↦ won s | failed ↦ lost | timed_out ↦ lost ]) ≡ lost
  elim_missed (connected s) won lost h = absurd (cc)
  elim_missed failed won lost h = refl
  elim_missed timed_out won lost h = refl

  -- An attempt that misses: its wait, if another attempt follows, and the rest of the loop.
  abbrev after_miss : ReconnectConfig → (ℕ → Attempt S) → ℕ → ℕ → ℕ → ConnectionQuality → Retried S
  after_miss config net left from delay q =
      let again = ltb from config.max_retries in
      let rest =
        retry config net left (suc from) (if again then next_delay config delay else delay)
          (record_error q) in
      record rest { waits = if again then delay ∷ rest.waits else rest.waits }

  retry-missed :
      (config : ReconnectConfig) (net : ℕ → Attempt S) (left from delay : ℕ) (q : ConnectionQuality)
      → missed (net from) ≡ true
      → retry config net (suc left) from delay q ≡ after_miss config net left from delay q
  unfolding retry
  retry-missed config net left from delay q h = elim_missed (net from) _ _ h

  AllMissed-next :
      (net : ℕ → Attempt S) (from n : ℕ)
      → missed (net from) ≡ true
      → AllMissed net (suc from) n
      → AllMissed net from (suc n)
  unfolding AllMissed
  AllMissed-next net from n h rest zero l = ap (λ k. missed (net k)) (omega arith) ∙ h
  AllMissed-next net from n h rest (suc j) l =
      ap (λ k. missed (net k)) (omega arith) ∙ rest j (omega arith)

  retry-connected :
      (config : ReconnectConfig) (net : ℕ → Attempt S) (left from delay : ℕ) (q : ConnectionQuality)
      (s : S)
      → net from ≡ connected s
      → retry config net (suc left) from delay q
        ≡ record { quality = reset_errors q; waits = []; outcome = ok s }
  unfolding retry
  retry-connected config net left from delay q s h = rw (h, retry) refl

  retry-outcome :
      (config : ReconnectConfig) (net : ℕ → Attempt S) (left from delay : ℕ) (q : ConnectionQuality)
      → from + left ≡ suc config.max_retries
      → Won net from left (retry config net left from delay q)
        ⊎ Lost net from left (retry config net left from delay q)
  unfolding AllMissed retry
  retry-outcome config net zero from delay q e =
      inr (record { none_won = λ j h. absurd (omega arith); result = refl; waited = refl })
  retry-outcome config net (suc left) from delay q e = elim (Attempt-cases (net from)) [
    | inl (s, won) ↦ rw (retry-connected config net left from delay q s won) (
        inl (record {
          at = 0;
          stream = s;
          within = omega arith;
          is = ap net (omega arith) ∙ won;
          before = λ j h. absurd (omega arith);
          result = refl;
          cleared = refl;
          waited = refl;
        }))
    | inr h ↦
        rw (retry-missed config net left from delay q h)
          (elim (retry-outcome config net left (suc from)
            (if ltb from config.max_retries then next_delay config delay else delay)
            (record_error q) (omega arith)) [
              | inl w ↦ inl (record {
                at = suc w.at;
                stream = w.stream;
                within = omega (arith, w.within);
                is = ap net (omega arith) ∙ w.is;
                before = AllMissed-next net from w.at h w.before;
                result = w.result;
                cleared = w.cleared;
                waited = ground (arith, w.waited, w.within);
              })
              | inr l ↦ inr (record {
                none_won = AllMissed-next net from left h l.none_won;
                result = l.result;
                waited = ground (arith, l.waited);
              })
            ])
  ]

  retry-waits_le :
      (config : ReconnectConfig) (net : ℕ → Attempt S) (bound left from delay : ℕ)
      (q : ConnectionQuality)
      → delay ≤ bound
      → config.max_delay ≤ bound
      → All (λ w. w ≤ bound) (retry config net left from delay q).waits
  unfolding retry next_delay
  retry-waits_le config net bound zero from delay q h m = tt
  retry-waits_le config net bound (suc left) from delay q h m = elim (Attempt-cases (net from)) [
    | inl (s, won) ↦ rw (retry-connected config net left from delay q s won) tt
    | inr e ↦
        rw (retry-missed config net left from delay q e)
          (elim (Bool-cases (ltb from config.max_retries)) [
            | inl again ↦ rw again (
              h,
              retry-waits_le config net bound left (suc from) (next_delay config delay)
                  (record_error q) (omega arith) m,
            )
            | inr done ↦
                rw done (retry-waits_le config net bound left (suc from) delay (record_error q) h m)
          ])
  ]

  -- Connecting with retries ends after at most `max_retries` attempts: either an attempt after
  -- misses only connects, its stream is the result, the error count is 0 and there was one wait
  -- per miss, or every attempt missed and the result is the failure, after one wait fewer.
  pub connect_with_retry-outcome :
      (m : Manager) (net : ℕ → Attempt S)
      → Won net 1 m.reconnect_config.max_retries (connect_with_retry m net)
        ⊎ Lost net 1 m.reconnect_config.max_retries (connect_with_retry m net)
  unfolding connect_with_retry
  connect_with_retry-outcome m net =
      let config = m.reconnect_config in
      retry-outcome config net config.max_retries 1 config.initial_delay m.quality_monitor
        (omega arith)

  -- Every wait between attempts is at most the larger of the initial and the maximal delay,
  -- whatever the backoff computes.
  connect_with_retry-waits_le :
      (m : Manager) (net : ℕ → Attempt S)
      → All
          (λ w. w ≤ max m.reconnect_config.initial_delay m.reconnect_config.max_delay)
          (connect_with_retry m net).waits
  unfolding connect_with_retry
  connect_with_retry-waits_le m net =
      let config = m.reconnect_config in
      retry-waits_le config net _ config.max_retries 1 config.initial_delay m.quality_monitor
        (omega arith) (omega arith)
