-- ===== src/Mongo/Task.antt =====
-- The background task of the MongoDB collector, in both kinds of build.
use dr_metrix.Prelude.{
  ℕ, ◌≡◌, ◌≢◌, refl, sym, ap, ◌∙◌, inl, inr, Bool, true, false, ◌||◌, List, [], ◌∷◌, arith,
  Bool-cases, if◌then◌else◌,
}
use dr_metrix.Std.{codes}
use dr_metrix.Core.Exec.{panicked, ok_ne_panicked}
use dr_metrix.Core.Metrics.{Client, IsLawful, Reading, Series}
use dr_metrix.Core.Collector.Loop.{
  waiting, ended, collect_loop, rounds, rounds_next, rounds_stop, replayed,
}
use dr_metrix.Mongo.Fields.{MongoMetric, mongo_metric_eq, arity}
use dr_metrix.Mongo.Collect.{Documents, Reply, document, failure, collect}
use dr_metrix.Mongo.Collect.Readings.{status_reading}
use dr_metrix.Mongo.Outcomes.{collect-document, collect-failure}
use dr_metrix.Mongo.Builds.{status_overflows, builds_agree}

module _ (docs : Documents) where
  -- An answer on which a build with overflow checks panics.
  abbrev pub is_fatal : (checks : Bool) → Reply docs.Document → Bool
  is_fatal false reply = false
  is_fatal true (document doc) = status_overflows docs (docs.get_document doc (codes "mem"))
  is_fatal true (failure message) = false

  abbrev pub any_fatal : (checks : Bool) → List (Reply docs.Document) → Bool
  any_fatal checks [] = false
  any_fatal checks (reply ∷ replies) = is_fatal checks reply || any_fatal checks replies

  -- What one round makes of a reading.
  abbrev pub round_reading :
      {F : Type 0} → Reply docs.Document → Series MongoMetric → Reading F → Reading F
  round_reading (document doc) k old = status_reading docs doc k.metric k.labels old
  round_reading (failure message) k old = old

  none_fatal : (replies : List (Reply docs.Document)) → any_fatal false replies ≡ false
  none_fatal [] = refl
  none_fatal (reply ∷ replies) = none_fatal replies

or_false : (a b : Bool) → a || b ≡ false → (a ≡ false) × (b ≡ false)
or_false a b h = ground arith

module _ {F : Type 0} (E : Type 0) (docs : Documents) (c : Client MongoMetric F)
    (lawful : IsLawful arity c) where
  -- The builds do the same where no figure overflows.
  collect_unchecked :
      (checks : Bool) (reply : Reply docs.Document) (s : c.State)
      → is_fatal docs checks reply ≡ false
      → collect {E = E} docs checks c reply s ≡ collect {E = E} docs false c reply s
  collect_unchecked false reply s h = refl
  collect_unchecked true (document doc) s h = builds_agree E docs c lawful doc s ∙ rw h refl
  collect_unchecked true (failure message) s h =
      collect-failure E docs c lawful true message s
      ∙ sym (collect-failure E docs c lawful false message s)

  collect_panics :
      (checks : Bool) (reply : Reply docs.Document) (s : c.State)
      → is_fatal docs checks reply ≡ true
      → (collect {E = E} docs checks c reply s).0 ≡ panicked
  collect_panics false reply s h = cc
  collect_panics true (document doc) s h =
      ap (λ done. done.0) (builds_agree E docs c lawful doc s) ∙ rw h refl
  collect_panics true (failure message) s h = cc

  -- A release round goes on, and shows what the answer says.
  release_round :
      (reply : Reply docs.Document) (s : c.State)
      → let done = collect {E = E} docs false c reply s in
        (done.0 ≢ panicked)
        × ((k : Series MongoMetric) → c.read done.1 k ≡ round_reading docs reply k (c.read s k))
  release_round (document doc) s =
      let (runs, shows) = collect-document E docs c lawful doc s in
      (ok_ne_panicked runs, λ k. shows k.metric k.labels)
  release_round (failure message) s =
      rw (collect-failure E docs c lawful false message s) (λ e. cc, λ k. refl)

  round :
      (checks : Bool) (reply : Reply docs.Document) (s : c.State)
      → is_fatal docs checks reply ≡ false
      → let done = collect {E = E} docs checks c reply s in
        (done.0 ≢ panicked)
        × ((k : Series MongoMetric) → c.read done.1 k ≡ round_reading docs reply k (c.read s k))
  round checks reply s h = rw (collect_unchecked checks reply s h) (release_round reply s)

  rounds_end :
      (checks : Bool) (replies : List (Reply docs.Document)) (s : c.State)
      → (rounds (collect {E = E} docs checks c) replies s).0
        ≡ (if any_fatal docs checks replies then ended else waiting)
  unfolding rounds
  rounds_end checks [] s = refl
  rounds_end checks (reply ∷ replies) s = elim (Bool-cases (is_fatal docs checks reply)) [
    | inl fatal ↦
        rw
          (
            fatal,
            rounds_stop (collect {E = E} docs checks c) reply replies s
                (collect_panics checks reply s fatal),
          )
          refl
    | inr harmless ↦
        rw
          (
            harmless,
            rounds_next (collect {E = E} docs checks c) reply replies s
                (round checks reply s harmless).0,
          )
          (rounds_end checks replies _)
  ]

  rounds_replay :
      (checks : Bool) (replies : List (Reply docs.Document)) (s : c.State) (k : Series MongoMetric)
      → any_fatal docs checks replies ≡ false
      → c.read (rounds (collect {E = E} docs checks c) replies s).1 k
        ≡ replayed (round_reading docs) replies k (c.read s k)
  unfolding rounds
  rounds_replay checks [] s k h = refl
  rounds_replay checks (reply ∷ replies) s k h =
      let (harmless, others) =
        or_false (is_fatal docs checks reply) (any_fatal docs checks replies) h in
      let (goes_on, shows) = round checks reply s harmless in
      rw (rounds_next (collect {E = E} docs checks c) reply replies s goes_on) (
        rounds_replay checks replies _ k others
        ∙ ap (replayed (round_reading docs) replies k) (shows k))

  -- If the period is accepted, the task of the MongoDB collector ends exactly in a build with overflow checks that
  -- is answered with a memory figure that does not fit after its conversion to bytes; a failing command ends
  -- it in neither build.
  -- The client library is assumed to do what it documents.
  pub task_ends :
      (checks : Bool) (accepts_period : ℕ → Bool) (interval : ℕ)
      (replies : List (Reply docs.Document)) (s : c.State)
      → accepts_period interval ≡ true
      → (collect_loop (collect {E = E} docs checks c) accepts_period interval replies s).0
        ≡ (if any_fatal docs checks replies then ended else waiting)
  unfolding collect_loop
  task_ends checks accepts_period interval replies s e = rw e (rounds_end checks replies s)

  -- If the period is accepted, the task of a release build never ends: after any number of ticks every series shows
  -- what the status documents say of it, one after the other; a failing command changes nothing.
  -- The client library is assumed to do what it documents.
  pub statuses_replayed :
      (accepts_period : ℕ → Bool) (interval : ℕ) (replies : List (Reply docs.Document))
      (s : c.State)
      → accepts_period interval ≡ true
      → let done = collect_loop (collect {E = E} docs false c) accepts_period interval replies s in
        (done.0 ≡ waiting)
        × ((k : Series MongoMetric)
            → c.read done.1 k ≡ replayed (round_reading docs) replies k (c.read s k))
  unfolding collect_loop
  statuses_replayed accepts_period interval replies s e = rw e (
    rounds_end false replies s ∙ rw (none_fatal docs replies) refl,
    λ k. rounds_replay false replies s k (none_fatal docs replies),
  )
