-- ===== src/Examples/Budgets/Streams.antt =====
-- The loop of examples/llm_token_budget.py against the token budget that the server keeps.
use throttlekit_py.Base.{
  ℕ, zero, suc, ◌+◌, ◌≤◌, ◌<◌, ◌⊎◌, inl, pos, Bool, true, ◌&&◌, List, [], ◌∷◌, ◌≡◌, refl, arith,
  if◌then◌else◌,
}
use throttlekit_py.Decision.{Decision}
use throttlekit_py.Errors.{Result, ok, err}
use throttlekit_py.Grpc.{Reply, reply, failed, broke}
use throttlekit_py.Service.{RateLimiterStub, DecisionMessage, decision_of, decoded, debit}
use throttlekit_py.Examples.Budgets.{fake_stream, Metered, metered, meter_stream}

-- What the server documents of a token budget over one window, others of the tenant included: a debit
-- is admitted only while budget remains, and is then counted in full.
pub record TokenBudget {W : Type 0} (stub : RateLimiterStub W) (budget : ℕ) : Type 0 where
  pub spent : W → ℕ
  pub admits :
      (tokens : ℕ) (w w' : W) (msg : DecisionMessage)
      → stub.debit (record { policy = "completions"; key = "tenant-1"; tokens = pos tokens }) w
        ≡ (reply msg, w')
      → msg.allowed ≡ true
      → (spent w < budget) × spent w + tokens ≤ spent w'

-- The tokens of the chunks that were admitted.
abbrev pub tokens_admitted : List ℕ → List Decision → ℕ
tokens_admitted costs [] = 0
tokens_admitted [] (d ∷ ds) = 0
tokens_admitted (cost ∷ costs) (d ∷ ds) = (if d.allowed then cost else 0) + tokens_admitted costs ds

-- Every decision but the last is an admission.
abbrev pub stops_at_refusal : List Decision → Bool
stops_at_refusal [] = true
stops_at_refusal (d ∷ []) = true
stops_at_refusal (d ∷ d' ∷ ds) = d.allowed && stops_at_refusal (d' ∷ ds)

-- No chunk is larger.
abbrev pub NoneOver : ℕ → List ℕ → Type 0
NoneOver cap [] = Unit
NoneOver cap (cost ∷ costs) = (cost ≤ cap) × NoneOver cap costs

pub fake_stream-NoneOver : (chunks cap : ℕ) → NoneOver cap (fake_stream chunks cap)
unfolding fake_stream
fake_stream-NoneOver zero cap = tt
fake_stream-NoneOver (suc chunks) cap = (ground arith, fake_stream-NoneOver chunks cap)

stops-after :
    (d : Decision) (ds : List Decision)
    → d.allowed ≡ true
    → stops_at_refusal ds ≡ true
    → stops_at_refusal (d ∷ ds) ≡ true
stops-after d [] e v = refl
stops-after d (d' ∷ ds) e v = ground arith

module _ {W : Type 0} (stub : RateLimiterStub W) where
  metered-stops :
      (rest : W → Metered W) (answer : Result Decision × W)
      → ((w : W) → stops_at_refusal (rest w).1 ≡ true)
      → stops_at_refusal (metered rest answer).1 ≡ true
  unfolding metered
  metered-stops rest (err e, w) v = refl
  metered-stops rest (ok d, w) v = ground (arith, stops-after d (rest w).1, v w)

  meter_stream-stops :
      (costs : List ℕ) (w : W) → stops_at_refusal (meter_stream stub costs w).1 ≡ true
  unfolding meter_stream
  meter_stream-stops [] w = refl
  meter_stream-stops (cost ∷ costs) w =
      metered-stops (meter_stream stub costs) (debit stub _ _ (pos cost) w)
        (meter_stream-stops costs)

  module _ (budget : ℕ) (limits : TokenBudget stub budget) (cap : ℕ) where
    -- What a run over some chunks may spend.
    abbrev Bounded : List ℕ → W → Metered W → Type 0
    Bounded costs w out =
        (tokens_admitted costs out.1 ≡ 0)
        ⊎ limits.spent w + tokens_admitted costs out.1 < budget + cap

    metered-Bounded :
        (cost : ℕ) (costs : List ℕ) (w : W) (answer : Reply DecisionMessage × W)
        → stub.debit (record { policy = "completions"; key = "tenant-1"; tokens = pos cost }) w
          ≡ answer
        → cost ≤ cap
        → ((w' : W) → Bounded costs w' (meter_stream stub costs w'))
        → Bounded (cost ∷ costs) w (metered (meter_stream stub costs) (decoded decision_of answer))
    unfolding metered decoded decision_of
    metered-Bounded cost costs w (reply msg, w') e small v =
        ground (arith, limits.admits cost w w' msg e, v w', small)
    metered-Bounded cost costs w (failed x, w') e small v = inl refl
    metered-Bounded cost costs w (broke x, w') e small v = inl refl

    meter_stream-Bounded :
        (costs : List ℕ) (w : W) → NoneOver cap costs → Bounded costs w (meter_stream stub costs w)
    unfolding meter_stream debit
    meter_stream-Bounded [] w small = inl refl
    meter_stream-Bounded (cost ∷ costs) w (small, smalls) =
        metered-Bounded cost costs w _ refl small (λ w'. meter_stream-Bounded costs w' smalls)

    -- The loop over a stream of chunks, none of more than `cap` tokens, on a tenant's budget that others
    -- may spend too. In one window, the tokens admitted to the loop, if any, exceed what was left of the
    -- budget when it began by less than `cap`: by none when each chunk is one token. After a refusal the loop
    -- makes no further debit.
    pub stream_within_budget :
        (costs : List ℕ) (w : W)
        → NoneOver cap costs
        → let (r, ds, w') = meter_stream stub costs w in
          ((tokens_admitted costs ds ≡ 0)
            ⊎ limits.spent w + tokens_admitted costs ds < budget + cap)
          × (stops_at_refusal ds ≡ true)
    stream_within_budget costs w small =
        (meter_stream-Bounded costs w small, meter_stream-stops costs w)
