-- ===== src/Examples/Routes/Counters/Answers.antt =====
-- The counter routes answer as counters that are numbers would.
use dr_metrix.Prelude.{
  ℕ, ◌≡◌, ◌≢◌, refl, sym, ap, ◌∙◌, inl, inr, Bool, true, false, Option, none, some, ℤ, List, [],
  ◌∷◌, arith, All, if◌then◌else◌, list_beq, nat_eq, list_eq,
}
use dr_metrix.Std.{Str}
use dr_metrix.Core.Exec.{Outcome, ok, err, panicked, state-pure}
use dr_metrix.Core.Metrics.{Client, IsLawful, samples, Series, series_eq}
use dr_metrix.Postgres.Pool.{Answer, value, failure}
use dr_metrix.Redis.Fields.{RedisMetric, redis_metric_eq, arity, command_duration_seconds}
use dr_metrix.Examples.Routes.{Arc, arc, AppState, Response, RedisPool, World, answered}
use dr_metrix.Examples.Routes.Counters.{
  Route, incr, decr, apply, update, sent, IsCounterStore, Serves, unconfigured, counts, fails,
  loses, Request, Runs, finished, serves, handle, handle_all, route_name,
}
use dr_metrix.Examples.Routes.Counters.Effects.{noted, handled, handle_runs, handle_unconfigured}

module _ {F : Type 0} (redis : RedisPool) (c : Client RedisMetric F) (lawful : IsLawful arity c)
    (state : AppState) (store : IsCounterStore redis) where
  handled-Serves :
      (route : Route) (key : Str) (elapsed : F) (w : World redis.State c.State)
      → state.redis_pool ≡ some arc
      → Serves redis store state w.server route key
          (handled redis c lawful state route key elapsed w).0
          (handled redis c lawful state route key elapsed w).1.server
  handled-Serves route key elapsed w pool = by_answer (sent redis route key w.server).0 refl
    where
      by_answer :
          (a : Answer ℤ)
          → (sent redis route key w.server).0 ≡ a
          → Serves redis store state w.server route key
              (answered key a)
              (sent redis route key w.server).1
      by_answer (value v) e =
          let (same, changed) = store.counted route key w.server v e in
          counts pool (ap (λ a. (a, (sent redis route key w.server).1)) (e ∙ ap value same))
            (rw same refl) (rw (← same) changed)
      by_answer (failure message) e =
          let told : sent redis route key w.server
              ≡ (failure message, (sent redis route key w.server).1) =
            ap (λ a. (a, (sent redis route key w.server).1)) e in
          elim (store.failed route key message w.server e) [
            | inl kept ↦ fails message pool told refl kept
            | inr done ↦ loses message pool told refl done
          ]

  -- Every request is answered as the specification says.
  pub handle-Serves :
      {E : Type 0} (route : Route) (key : Str) (elapsed : F) (w : World redis.State c.State)
      → (r : Response) × (w' : World redis.State c.State) × (handle {E = E} redis c state route key
            elapsed w
          ≡ (ok r, w'))
        × Serves redis store state w.server route key r w'.server
  handle-Serves {E} route key elapsed w = by_pool state.redis_pool refl
    where
      by_pool :
          (o : Option Arc)
          → state.redis_pool ≡ o
          → (r : Response) × (w' : World redis.State c.State) × (handle {E = E} redis c state route
                key elapsed w
              ≡ (ok r, w'))
            × Serves redis store state w.server route key r w'.server
      by_pool none e = (
        _,
        w,
        handle_unconfigured redis c lawful state route key elapsed w e,
        unconfigured e refl refl,
      )
      by_pool (some arc) e = (
        _,
        _,
        handle_runs redis c lawful state route key elapsed w e,
        handled-Serves route key elapsed w e,
      )

  -- Any sequence of counter requests is answered one by one as counters that are numbers would be: each request is
  -- refused with 503 exactly where there is no pool; otherwise its command is sent to the server, once, and it
  -- is answered with 200 and the new value of the counter when the server answers, and with 500 and the
  -- message of the error when the command fails. No other counter changes. The pool is assumed to be such a
  -- store, and the client library to do what it documents.
  pub handle_all_refines :
      {E : Type 0} (qs : List (Request F)) (w : World redis.State c.State)
      → (rs : List Response) × (w' : World redis.State c.State) × (handle_all {E = E} redis c state
            qs w
          ≡ (ok rs, w'))
        × Runs redis store state w.server qs rs w'.server
  unfolding handle_all
  handle_all_refines [] w = ([], w, refl, finished)
  handle_all_refines {E} (q ∷ qs) w =
      let (r, w1, run, served) = handle-Serves {E = E} q.route q.key q.elapsed w in
      let (rs, w2, runs, rest) = handle_all_refines {E = E} qs w1 in
      (r ∷ rs, w2, rw (run, runs), serves served rest)

-- The counters after requests that were all counted.
pub replay : {F : Type 0} → List (Request F) → (Str → ℤ) → Str → ℤ
replay [] f = f
replay (q ∷ qs) f = replay qs (update f q.key (apply q.route (f q.key)))

wrong_status : {m n k : ℕ} → m ≡ n → m ≡ k → n ≢ k → ⊥
wrong_status h e ne = ne (sym h ∙ e)

-- If every request is answered with 200, the counters are the ones before, with each request counted once.
pub replay_of_Runs :
    {F : Type 0} {redis : RedisPool} (store : IsCounterStore redis) {state : AppState}
    {s t : redis.State} {qs : List (Request F)} {rs : List Response}
    → Runs redis store state s qs rs t
    → All (λ r. r.status ≡ 200) rs
    → store.counter t ≡ replay qs (store.counter s)
unfolding replay
replay_of_Runs store finished h = refl
replay_of_Runs store (serves (counts c a e p) rest) (h, hs) = replay_of_Runs store rest hs ∙ rw p
replay_of_Runs store (serves (unconfigured n e p) rest) (h, hs) =
    absurd (wrong_status h (ap (λ (x : Response). x.status) e) (omega arith))
replay_of_Runs store (serves (fails m c a e p) rest) (h, hs) =
    absurd (wrong_status h (ap (λ (x : Response). x.status) e) (omega arith))
replay_of_Runs store (serves (loses m c a e p) rest) (h, hs) =
    absurd (wrong_status h (ap (λ (x : Response). x.status) e) (omega arith))

abbrev responses : {E : Type 0} → Outcome E (List Response) → List Response
responses (ok rs) = rs
responses (err e) = []
responses panicked = []

abbrev pub command_series : Route → Series RedisMetric
command_series route = record { metric = command_duration_seconds; labels = route_name route ∷ [] }

unfoldable pub same_route : Route → Route → Bool
same_route incr incr = true
same_route decr decr = true
same_route _ _ = false

-- The times of the commands of a route, the latest first, before the given ones.
unfoldable pub timings : {F : Type 0} → Route → List (Request F) → List F → List F
timings route [] xs = xs
timings route (q ∷ qs) xs =
    timings route qs (if same_route q.route route then q.elapsed ∷ xs else xs)

module _ {F E : Type 0} (redis : RedisPool) (c : Client RedisMetric F) (lawful : IsLawful arity c)
    (state : AppState) (store : IsCounterStore redis) where
  -- If every request of a sequence is answered with 200, each counter is what it was before, with each
  -- request for it counted once. The pool is assumed to be a store of counters, and the client library to
  -- do what it documents.
  pub counters_add_up :
      (qs : List (Request F)) (w w' : World redis.State c.State) (rs : List Response)
      → handle_all {E = E} redis c state qs w ≡ (ok rs, w')
      → All (λ r. r.status ≡ 200) rs
      → store.counter w'.server ≡ replay qs (store.counter w.server)
  counters_add_up qs w w' rs run h =
      let (rs', w1, run', runs) = handle_all_refines redis c lawful state store {E = E} qs w in
      let both = sym run' ∙ run in
      let same_responses : rs' ≡ rs = ap (λ done. responses done.0) both in
      ap (λ done. store.counter done.1.server) (sym both)
      ∙ replay_of_Runs store runs (rw same_responses h)

module _ {F : Type 0} (E : Type 0) (redis : RedisPool) (c : Client RedisMetric F)
    (lawful : IsLawful arity c) (state : AppState) where
  pub read-noted :
      (o : Option Arc) (sent route : Route) (elapsed : F) (xs : List F) (m : c.State)
      → o ≡ some arc
      → c.read m (command_series route) ≡ samples xs
      → c.read (noted redis c lawful state o sent elapsed m) (command_series route)
        ≡ samples (if same_route sent route then elapsed ∷ xs else xs)
  unfolding noted same_route list_beq
  read-noted none sent route elapsed xs m e h = cc
  read-noted (some arc) incr incr elapsed xs m e h = simp lawful.read-observe (rw h)
  read-noted (some arc) incr decr elapsed xs m e h = simp lawful.read-observe (rw h)
  read-noted (some arc) decr incr elapsed xs m e h = simp lawful.read-observe (rw h)
  read-noted (some arc) decr decr elapsed xs m e h = simp lawful.read-observe (rw h)

  -- Where both the pool and the metrics are configured, the durations of the commands are observed, each
  -- under the name of its command, whatever the answers are. The client library is assumed to do what it
  -- documents.
  pub commands_observed :
      (qs : List (Request F)) (route : Route) (xs : List F) (w : World redis.State c.State)
      → state.redis_pool ≡ some arc
      → state.redis_metrics ≡ some arc
      → c.read w.metrics (command_series route) ≡ samples xs
      → c.read (handle_all {E = E} redis c state qs w).1.metrics (command_series route)
        ≡ samples (timings route qs xs)
  unfolding handle_all timings
  commands_observed [] route xs w p m h = h
  commands_observed (q ∷ qs) route xs w p m h =
      rw (handle_runs redis c lawful state {E = E} q.route q.key q.elapsed w p) (
        ap (λ done. c.read done.metrics (command_series route))
          (state-pure _ (handle_all {E = E} redis c state qs) _)
        ∙ commands_observed qs route _ _ p m
            (read-noted state.redis_metrics q.route route q.elapsed xs w.metrics m h))
