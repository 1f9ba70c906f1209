-- ===== src/Bmc/AnyRun.antt =====
-- A well-formed circuit has a run of any length: each frame is evaluated from its latches.
use modelchecker.Common.{
  ℕ, zero, suc, ◌+◌, ◌≤◌, ◌<◌, ◌≡◌, refl, ap, ◌∙◌, true, false, List, [], ◌∷◌, arith, ℤ, pos,
  negsuc, abs, is_pos, length, not, All,
}
use modelchecker.Circuit.{Assignment, holds, IsLiteral}
use modelchecker.Circuit.Settle.{
  update, settle, update_other, update_self, settle_below, settle-GateHolds,
}
use modelchecker.Circuit.Run.{IsVar, IsReset, IsWellFormed, IsFrame, NextLatches, num_variables}
use modelchecker.Aiger.{Aiger, first_latch, first_ands_index}
use modelchecker.Sat.Laws.{AllTrue}
use modelchecker.Bmc.Run.{IsRun}
use modelchecker.Bmc.Unfold.{unfold_frames, checked_bad}
use modelchecker.Bmc.Unfold.Bounds.{IsBounded}
use modelchecker.Bmc.Complete.{run-Carries}

unfoldable resets : List ℤ → Assignment
resets [] v = false
resets (l ∷ ls) v = update (resets ls) (abs l) (is_pos l) v

unfoldable latched : Assignment → ℕ → List ℤ → Assignment
latched x v [] w = false
latched x v (l ∷ ls) w = update (latched x (suc v) ls) v (holds x l) w

resets_below : (m e v : ℕ) (ls : List ℤ) → IsReset m e ls → v < m → resets ls v ≡ false
unfolding resets
resets_below m e v [] h lt = refl
resets_below m e v (l ∷ ls) (lo, hi, h) lt =
    update_other (resets ls) (abs l) v _ (omega arith)
    ∙ resets_below (suc (abs l)) e v ls h (omega arith)

latched_below : (x : Assignment) (m v : ℕ) (ls : List ℤ) → v < m → latched x m ls v ≡ false
unfolding latched
latched_below x m v [] lt = refl
latched_below x m v (l ∷ ls) lt =
    update_other (latched x (suc m) ls) m v _ (omega arith)
    ∙ latched_below x (suc m) v ls (omega arith)

holds_sign : (y : Assignment) (l : ℤ) → IsLiteral l → y (abs l) ≡ is_pos l → holds y l ≡ true
unfolding holds
holds_sign y (pos zero) lit e = absurd (omega arith)
holds_sign y (pos (suc n)) lit e = ground (arith, e)
holds_sign y (negsuc n) lit e = ap not e

resets-AllTrue :
    (y : Assignment) (m e : ℕ) (ls : List ℤ)
    → 0 < m
    → IsReset m e ls
    → ((v : ℕ) → m ≤ v → v < e → y v ≡ resets ls v)
    → AllTrue y ls
unfolding resets
resets-AllTrue y m e [] one h same = tt
resets-AllTrue y m e (l ∷ ls) one (lo, hi, h) same = (
  holds_sign y l (omega arith) (same (abs l) lo hi ∙ update_self (resets ls) (abs l) (is_pos l)),
  resets-AllTrue y (suc (abs l)) e ls (omega arith) h (λ v low high.
      same v (omega arith) high ∙ update_other (resets ls) (abs l) v _ (omega arith)),
)

latched-NextLatches :
    (x y : Assignment) (m : ℕ) (ls : List ℤ)
    → ((v : ℕ) → m ≤ v → v < m + length ls → y v ≡ latched x m ls v)
    → NextLatches x y m ls
unfolding latched
latched-NextLatches x y m [] same = tt
latched-NextLatches x y m (l ∷ ls) same = (
  same m (omega arith) (omega arith) ∙ update_self (latched x (suc m) ls) m (holds x l),
  latched-NextLatches x y (suc m) ls (λ v low high.
      same v (omega arith) (omega arith) ∙ update_other (latched x (suc m) ls) m v _ (omega arith)),
)

-- The run in which every input is false.
unfoldable idle_run : Aiger → ℕ → Assignment
idle_run c zero = settle c.ands (resets c.init_state)
idle_run c (suc k) = settle c.ands (latched (idle_run c k) (first_latch c) c.nexts)

module _ (c : Aiger) (well : IsWellFormed c) where
  idle_run-IsFrame : (k : ℕ) → IsFrame c (idle_run c k)
  unfolding idle_run
  idle_run-IsFrame zero = record {
    constant =
        settle_below (first_ands_index c) c.ands _ 1 well.ordered (omega arith)
        ∙ resets_below (first_latch c) (first_ands_index c) 1 c.init_state well.reset (omega arith);
    gates = settle-GateHolds (first_ands_index c) c.ands _ well.ordered;
  }
  idle_run-IsFrame (suc k) = record {
    constant =
        settle_below (first_ands_index c) c.ands _ 1 well.ordered (omega arith)
        ∙ latched_below (idle_run c k) (first_latch c) 1 c.nexts (omega arith);
    gates = settle-GateHolds (first_ands_index c) c.ands _ well.ordered;
  }

  idle_run-IsRun : (k : ℕ) → IsRun c k (idle_run c)
  unfolding idle_run
  idle_run-IsRun k = record {
    initial =
        resets-AllTrue _ (first_latch c) (first_ands_index c) c.init_state (omega arith) well.reset
          (λ v lo hi. settle_below (first_ands_index c) c.ands _ v well.ordered hi);
    frames = λ i lt. idle_run-IsFrame i;
    steps = λ i lt. latched-NextLatches (idle_run c i) _ (first_latch c) c.nexts (λ v lo hi.
        settle_below (first_ands_index c) c.ands _ v well.ordered (omega (arith, well.next_count)));
  }

  -- So the bounds of the unfolding hold for any number of frames.
  pub unfold_frames-IsBounded :
      (thread k : ℕ)
      → IsVar (num_variables c) (checked_bad c thread)
      → IsBounded (unfold_frames c thread k)
  unfold_frames-IsBounded thread k bad =
      (run-Carries c thread k (idle_run c) well bad (idle_run-IsRun k) k (omega arith)).bounded

  pub unfold_frames_constraints-lt :
      (thread k : ℕ)
      → IsVar (num_variables c) (checked_bad c thread)
      → All
          (λ l. abs l < length (unfold_frames c thread k).nodes)
          (unfold_frames c thread k).constraints
  unfold_frames_constraints-lt thread k bad =
      (run-Carries c thread k (idle_run c) well bad (idle_run-IsRun k) k
        (omega arith)).constraints.small
