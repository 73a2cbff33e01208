-- ===== src/Core/Collector/Loop.antt =====
-- The task that `spawn_collect_loop` starts.
use dr_metrix.Prelude.{ℕ, ◌≡◌, refl, ap, ◌∙◌, ◌≢◌, Bool, true, List, [], ◌∷◌, ◌++◌, if◌then◌else◌}
use dr_metrix.Core.Exec.{Exec, Outcome, ok, err, panicked}

-- A task waits for its next tick, or a panic has ended it.
pub data Task : Type 0 where
  waiting : Task
  ended : Task

ended_ne_waiting : ended ≢ waiting
ended_ne_waiting h = cc

module _ {S E Input : Type 0} (collect : Input → Exec S E (Unit {0})) where
  -- Behind one call of `collect`: an error is logged and dropped, a panic ends the task.
  abbrev after : Outcome E (Unit {0}) × S → (S → Task × S) → Task × S
  after (ok _, s) next = next s
  after (err _, s) next = next s
  after (panicked, s) next = (ended, s)

  -- The `loop`, for as many ticks as there are inputs.
  unfoldable pub rounds : List Input → S → Task × S
  rounds [] s = (waiting, s)
  rounds (i ∷ is) s = after (collect i s) (rounds is)

  -- The whole task. `tokio::time::interval` takes the period, or panics.
  unfoldable pub collect_loop : (accepts_period : ℕ → Bool) → ℕ → List Input → S → Task × S
  unfolding rounds
  collect_loop accepts_period interval is s =
      if accepts_period interval then rounds is s else (ended, s)

  -- The states that the calls of `collect` leave, one after the other.
  unfoldable pub collected : List Input → S → S
  collected [] s = s
  collected (i ∷ is) s = collected is (collect i s).1

  after_no_panic :
      (r : Outcome E (Unit {0}) × S) (next : S → Task × S)
      → r.0 ≢ panicked
      → after r next ≡ next r.1
  after_no_panic (ok a, s) next h = refl
  after_no_panic (err e, s) next h = refl
  after_no_panic (panicked, s) next h = absurd (h refl)

  rounds_survive :
      ((i : Input) (s : S) → (collect i s).0 ≢ panicked)
      → (is : List Input) (s : S) → rounds is s ≡ (waiting, collected is s)
  unfolding rounds collected
  rounds_survive h [] s = refl
  rounds_survive h (i ∷ is) s =
      rw (after_no_panic (collect i s) (rounds is) (h i s)) (rounds_survive h is (collect i s).1)

  -- If no call of `collect` panics and the period is accepted, the task never ends: at every tick it
  -- has called `collect` once for each tick, whichever of the calls failed.
  pub collect_loop_survives :
      (accepts_period : ℕ → Bool) (interval : ℕ)
      → accepts_period interval ≡ true
      → ((i : Input) (s : S) → (collect i s).0 ≢ panicked)
      → (is : List Input) (s : S)
      → collect_loop accepts_period interval is s ≡ (waiting, collected is s)
  unfolding collect_loop
  collect_loop_survives accepts_period interval e h is s = rw e (rounds_survive h is s)

  after-waiting :
      (r : Outcome E (Unit {0}) × S) (next next' : S → Task × S) (t : S) (result : Task × S)
      → ((u : S) → next u ≡ (waiting, t) → next' u ≡ result)
      → after r next ≡ (waiting, t)
      → after r next' ≡ result
  after-waiting (ok a, s) next next' t result k h = k s h
  after-waiting (err e, s) next next' t result k h = k s h
  after-waiting (panicked, s) next next' t result k h = absurd (ended_ne_waiting (ap (λ p. p.0) h))

  rounds-append :
      (is js : List Input) (s t : S)
      → rounds is s ≡ (waiting, t)
      → rounds (is ++ js) s ≡ rounds js t
  unfolding rounds
  rounds-append [] js s t h = ap (rounds js) (ap (λ p. p.1) h)
  rounds-append (i ∷ is) js s t h =
      after-waiting (collect i s) (rounds is) (rounds (is ++ js)) t (rounds js t)
        (λ u. rounds-append is js u t) h

  after_panic :
      (r : Outcome E (Unit {0}) × S) (next : S → Task × S)
      → r.0 ≡ panicked
      → after r next ≡ (ended, r.1)
  after_panic (ok a, s) next h = cc
  after_panic (err e, s) next h = cc
  after_panic (panicked, s) next h = refl

  -- One round of the loop.
  pub rounds_next :
      (i : Input) (is : List Input) (s : S)
      → (collect i s).0 ≢ panicked
      → rounds (i ∷ is) s ≡ rounds is (collect i s).1
  unfolding rounds
  rounds_next i is s h = after_no_panic (collect i s) (rounds is) h

  pub rounds_stop :
      (i : Input) (is : List Input) (s : S)
      → (collect i s).0 ≡ panicked
      → rounds (i ∷ is) s ≡ (ended, (collect i s).1)
  unfolding rounds
  rounds_stop i is s h = after_panic (collect i s) (rounds is) h

  -- A panic in one call ends the task: the later ticks change nothing.
  pub collect_loop_panics :
      (accepts_period : ℕ → Bool) (interval : ℕ) (before later : List Input) (i : Input) (s t : S)
      → accepts_period interval ≡ true
      → collect_loop accepts_period interval before s ≡ (waiting, t)
      → (collect i t).0 ≡ panicked
      → collect_loop accepts_period interval (before ++ i ∷ later) s ≡ (ended, (collect i t).1)
  unfolding collect_loop
  collect_loop_panics accepts_period interval before later i s t e ran fault = rw e (
      rounds-append before (i ∷ later) s t (rw e at ran)
      ∙ (unfold rounds in (after_panic (collect i t) (rounds later) fault)))

-- What a sequence of calls makes of a reading, if `step` is what one call makes of it.
abbrev pub replayed : {Input K V : Type 0} → (Input → K → V → V) → List Input → K → V → V
replayed step [] k v = v
replayed step (i ∷ is) k v = replayed step is k (step i k v)

module _ {S E Input K V : Type 0} (collect : Input → Exec S E (Unit {0})) (read : S → K → V)
    (step : Input → K → V → V) where
  pub read-collected :
      ((i : Input) (s : S) (k : K) → read (collect i s).1 k ≡ step i k (read s k))
      → (is : List Input) (s : S) (k : K)
      → read (collected collect is s) k ≡ replayed step is k (read s k)
  unfolding collected
  read-collected h [] s k = refl
  read-collected h (i ∷ is) s k =
      read-collected h is (collect i s).1 k ∙ ap (replayed step is k) (h i s k)
