-- ===== src/Fleet/Budget.antt =====
-- Many `LeasedLimiter`s on one budget (src/throttlekit/fleet_backend.py): their rounds come in any
-- order, as the threads and processes of a fleet interleave them.
use throttlekit_py.Base.{
  ℕ, zero, suc, ℤ, pos, ◌+ℤ◌, ◌≤ℤ◌, int_laws, List, [], ◌∷◌, none, ◌≡◌, arith,
}
use throttlekit_py.Fleet.{FleetBackend, LeasedLimiter, round}
use throttlekit_py.Fleet.Rounds.{
  Accounts, balance, spent_in, limiter_after, world_after, round-RoundCovered,
}

-- A round of the check of one client: which client, its cost and its time.
pub record Turn : Type 0 where
  pub client : ℕ
  pub cost : ℤ
  pub ts : ℤ

abbrev pub total_balance : List LeasedLimiter → ℤ
total_balance [] = pos 0
total_balance (l ∷ ls) = balance l +ℤ total_balance ls

abbrev pub AllNonneg : List LeasedLimiter → Type 0
AllNonneg [] = Unit
AllNonneg (l ∷ ls) = (pos 0 ≤ℤ balance l) × AllNonneg ls

abbrev pub AllFresh : List LeasedLimiter → Type 0
AllFresh [] = Unit
AllFresh (l ∷ ls) = (l.spender ≡ none) × AllFresh ls

module _ {W : Type 0} (b : FleetBackend W) where
  -- The units spent, and the clients and the world after the round.
  unfoldable pub take_turn : ℕ → ℤ → ℤ → List LeasedLimiter → W → ℤ × List LeasedLimiter × W
  take_turn i cost ts [] w = (pos 0, [], w)
  take_turn zero cost ts (l ∷ ls) w =
      let e = round b l cost ts w in (spent_in e cost, limiter_after e ∷ ls, world_after e)
  take_turn (suc i) cost ts (l ∷ ls) w =
      let (used, ls', w') = take_turn i cost ts ls w in (used, l ∷ ls', w')

  unfoldable pub take_turns : List Turn → List LeasedLimiter → W → ℤ × List LeasedLimiter × W
  take_turns [] ls w = (pos 0, ls, w)
  take_turns (t ∷ ts) ls w =
      let (used, ls', w') = take_turn t.client t.cost t.ts ls w in
      let (rest, ls'', w'') = take_turns ts ls' w' in (used +ℤ rest, ls'', w'')

module _ {W : Type 0} (b : FleetBackend W) (accounts : Accounts b.stub) where
  open accounts use {issued}

  abbrev FleetCovered : List LeasedLimiter → W → ℤ × List LeasedLimiter × W → Type 0
  FleetCovered ls w (used, ls', w') =
      AllNonneg ls' × (used +ℤ total_balance ls' +ℤ issued w ≤ℤ total_balance ls +ℤ issued w')

  take_turn-FleetCovered :
      (i : ℕ) (cost ts : ℤ) (ls : List LeasedLimiter) (w : W)
      → AllNonneg ls
      → FleetCovered ls w (take_turn b i cost ts ls w)
  unfolding take_turn
  take_turn-FleetCovered zero cost ts [] w h = (tt, omega int_laws)
  take_turn-FleetCovered (suc i) cost ts [] w h = (tt, omega int_laws)
  take_turn-FleetCovered zero cost ts (l ∷ ls) w h =
      let c = round-RoundCovered b accounts l cost ts w h.0 in ((c.0, h.1), omega int_laws)
  take_turn-FleetCovered (suc i) cost ts (l ∷ ls) w h =
      let c = take_turn-FleetCovered i cost ts ls w h.1 in ((h.0, c.0), omega int_laws)

  -- Over any sequence of rounds of any number of clients, the units spent and the credits left with
  -- the clients are covered by their credits before and the units granted meanwhile.
  take_turns-FleetCovered :
      (ts : List Turn) (ls : List LeasedLimiter) (w : W)
      → AllNonneg ls
      → let (used, ls', w') = take_turns b ts ls w in
        AllNonneg ls' × (used +ℤ total_balance ls' +ℤ issued w ≤ℤ total_balance ls +ℤ issued w')
  unfolding take_turns
  take_turns-FleetCovered [] ls w h = (h, omega int_laws)
  take_turns-FleetCovered (t ∷ ts) ls w h =
      let (used, ls', w') = take_turn b t.client t.cost t.ts ls w in
      let c = take_turn-FleetCovered t.client t.cost t.ts ls w h in
      let rest = take_turns-FleetCovered ts ls' w' c.0 in (rest.0, omega int_laws)

  total_balance_fresh :
      (ls : List LeasedLimiter) → AllFresh ls → AllNonneg ls × (total_balance ls ≤ℤ pos 0)
  total_balance_fresh [] f = (tt, omega arith)
  total_balance_fresh (l ∷ ls) f =
      let rest = total_balance_fresh ls f.1 in
      ((rw f.0 (omega arith), rest.0), rw f.0 (omega int_laws))

  total_balance_nonneg : (ls : List LeasedLimiter) → AllNonneg ls → pos 0 ≤ℤ total_balance ls
  total_balance_nonneg [] h = omega arith
  total_balance_nonneg (l ∷ ls) h = omega (int_laws, total_balance_nonneg ls h.1)

  -- A service that never grants more than a budget is never overshot, however many new clients there
  -- are and however their rounds interleave: with what was granted before, the units spent stay
  -- within the budget.
  pub fleet_within_budget :
      (budget : ℤ) (ts : List Turn) (ls : List LeasedLimiter) (w : W)
      → ((v : W) → issued v ≤ℤ budget)
      → AllFresh ls
      → (take_turns b ts ls w).0 +ℤ issued w ≤ℤ budget
  fleet_within_budget budget ts ls w within fresh =
      let (used, ls', w') = take_turns b ts ls w in
      let start = total_balance_fresh ls fresh in
      let (held, counted) = take_turns-FleetCovered ts ls w start.0 in
      omega (int_laws, start.1, total_balance_nonneg ls' held, within w')
