-- ===== src/Fleet/Windows/Clients.antt =====
-- Many window-coupled clients of src/throttlekit/fleet_backend.py over a window, their rounds in any order.
use throttlekit_py.Base.{ℕ, zero, suc, ℤ, pos, ◌+ℤ◌, ◌≤ℤ◌, int_laws, List, [], ◌∷◌, ◌≡◌, arith}
use throttlekit_py.Fleet.{FleetBackend, LeasedLimiter}
use throttlekit_py.Fleet.Rounds.{Accounts}
use throttlekit_py.Fleet.Budget.{Turn, take_turn, take_turns}
use throttlekit_py.Fleet.Windows.{live_credits, IsCoupled, GrantsAfter, round-WindowCovered}

abbrev AllCoupled : List LeasedLimiter → Type 0
AllCoupled [] = Unit
AllCoupled (l ∷ ls) = IsCoupled l × AllCoupled ls

-- Window-coupled clients without debt, whose leases, if any, have boundaries at the time or before.
abbrev pub AllRolled : ℤ → List LeasedLimiter → Type 0
AllRolled start [] = Unit
AllRolled start (l ∷ ls) =
    (IsCoupled l × (live_credits start l.spender ≡ pos 0)) × AllRolled start ls

abbrev total_live : ℤ → List LeasedLimiter → ℤ
total_live start [] = pos 0
total_live start (l ∷ ls) = live_credits start l.spender +ℤ total_live start ls

module _ {W : Type 0} (b : FleetBackend W) (start : ℤ) (InWindow : W → Type 0) where
  -- Each round is at the time or later, and in a state of the world that is in the window.
  abbrev pub AllInWindow : List Turn → List LeasedLimiter → W → Type 0
  AllInWindow [] ls w = Unit
  AllInWindow (t ∷ ts) ls w =
      (start ≤ℤ t.ts)
      × InWindow w
      × (let (used, ls', w') = take_turn b t.client t.cost t.ts ls w in AllInWindow ts ls' w')

module _ {W : Type 0} (b : FleetBackend W) (accounts : Accounts b.stub) (start : ℤ)
    (InWindow : W → Type 0) (window : GrantsAfter b.stub start InWindow) where
  open accounts use {issued}

  abbrev ClientsCovered : List LeasedLimiter → W → ℤ × List LeasedLimiter × W → Type 0
  ClientsCovered ls w (used, ls', w') =
      AllCoupled ls'
      × (used +ℤ total_live start ls' +ℤ issued w ≤ℤ total_live start ls +ℤ issued w')

  take_turn-ClientsCovered :
      (i : ℕ) (cost ts : ℤ) (ls : List LeasedLimiter) (w : W)
      → AllCoupled ls
      → start ≤ℤ ts
      → InWindow w
      → ClientsCovered ls w (take_turn b i cost ts ls w)
  unfolding take_turn
  take_turn-ClientsCovered zero cost ts [] w v late inside = (tt, omega int_laws)
  take_turn-ClientsCovered (suc i) cost ts [] w v late inside = (tt, omega int_laws)
  take_turn-ClientsCovered zero cost ts (l ∷ ls) w v late inside =
      let c = round-WindowCovered b accounts start InWindow window l cost ts w v.0 late inside in
      ((c.0, v.1), omega int_laws)
  take_turn-ClientsCovered (suc i) cost ts (l ∷ ls) w v late inside =
      let c = take_turn-ClientsCovered i cost ts ls w v.1 late inside in
      ((v.0, c.0), omega int_laws)

  take_turns-ClientsCovered :
      (ts : List Turn) (ls : List LeasedLimiter) (w : W)
      → AllCoupled ls
      → AllInWindow b start InWindow ts ls w
      → ClientsCovered ls w (take_turns b ts ls w)
  unfolding take_turns
  take_turns-ClientsCovered [] ls w v timed = (v, omega int_laws)
  take_turns-ClientsCovered (t ∷ ts) ls w v (late, inside, timed) =
      let (used, ls', w') = take_turn b t.client t.cost t.ts ls w in
      let c = take_turn-ClientsCovered t.client t.cost t.ts ls w v late inside in
      let rest = take_turns-ClientsCovered ts ls' w' c.0 timed in (rest.0, omega int_laws)

  rolled_total :
      (ls : List LeasedLimiter)
      → AllRolled start ls
      → AllCoupled ls × (total_live start ls ≤ℤ pos 0)
  rolled_total [] v = (tt, omega arith)
  rolled_total (l ∷ ls) v =
      let rest = rolled_total ls v.1 in ((v.0.0, rest.0), rw v.0.1 (omega int_laws))

  live_nonneg : (l : LeasedLimiter) → IsCoupled l → pos 0 ≤ℤ live_credits start l.spender
  live_nonneg l v = ground arith

  live_total : (ls : List LeasedLimiter) → AllCoupled ls → pos 0 ≤ℤ total_live start ls
  live_total [] v = omega arith
  live_total (l ∷ ls) v = omega (int_laws, live_nonneg l v.0, live_total ls v.1)

  -- Window-coupled clients without debt, as many as there are, that come into a window with no credits
  -- but of leases whose boundaries have passed: while their rounds, in any order, are at the start of
  -- the window or later by the client's clock, and the service grants only leases whose boundary lies
  -- after that start, the units that they spend are at most those that it grants meanwhile. No unit of
  -- an earlier window is carried over.
  pub window_not_overspent :
      (ts : List Turn) (ls : List LeasedLimiter) (w : W)
      → AllRolled start ls
      → AllInWindow b start InWindow ts ls w
      → let (used, ls', w') = take_turns b ts ls w in used +ℤ issued w ≤ℤ issued w'
  window_not_overspent ts ls w rolled timed =
      let (used, ls', w') = take_turns b ts ls w in
      let (coupled, nothing) = rolled_total ls rolled in
      let (v, counted) = take_turns-ClientsCovered ts ls w coupled timed in
      omega (int_laws, nothing, live_total ls' v)
