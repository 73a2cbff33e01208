-- ===== src/Axum/Layer/Requests.antt =====
-- Requests that overlap: each is begun, and then finished or dropped, in any order. A dropped request is
-- one whose future is dropped before the inner service has answered (the client went away).
pub mod Effects
use dr_metrix.Prelude.{
  ℕ, zero, suc, ◌+◌, ◌%◌, ◌^◌, ◌≡◌, refl, sym, ap, ◌∙◌, List, [], ◌∷◌, Option, none, some, ◌++◌,
  Bool, true, false, arith, length, length-append, if◌then◌else◌, ℤ, pos, wrap_i64, list_beq,
  nat_eq, list_eq, add_one-wrap, sub_one-wrap,
}
use dr_metrix.Std.{Str, Floats}
use dr_metrix.Core.Exec.{ok}
use dr_metrix.Core.Metrics.{
  Client, IsLawful, Reading, int, counter, incremented, decremented, observed, samples, Series,
}
use dr_metrix.Axum.Fields.{
  HttpMetric, arity, http_metric_eq, requests_total, request_duration_seconds, response_size_bytes,
}
use dr_metrix.Axum.Layer.{Request, Answer, Pending, path_label, in_flight, begin, finish}
use dr_metrix.Axum.Layer.Log.{answer_length, sized, read-answer}
use Effects.{
  captured, answered_labels, begin_runs, finish_runs, read-begin-in_flight, read-begin_total,
  read-begin_duration, read-finish-in_flight, read-finish_total, read-finish_duration,
}

-- How many requests ended with the given labels.
abbrev pub count : List Str → List (List Str) → ℕ
count ls [] = 0
count ls (ms ∷ mss) = if list_beq ms ls then suc (count ls mss) else count ls mss

-- The labels that a length is observed under, where there is one.
abbrev length_labels : {F : Type 0} → Pending → Option F → List (List Str)
length_labels p none = []
length_labels p (some len) = (p.method ∷ p.path ∷ []) ∷ []

module _ {F : Type 0} (E : Type 0) (floats : Floats F) (c : Client HttpMetric F) where
  -- The metrics, the futures that wait for an answer, how many were dropped, the labels of the requests that
  -- ended, and the labels of those that ended with a response whose header gives a length.
  pub record System : Type 0 where
    pub metrics : c.State
    pub pending : List Pending
    pub dropped : ℕ
    pub finished : List (List Str)
    pub measured : List (List Str)

  pub data Step : System → System → Type 0 where
    begins :
        (s : System) (req : Request)
        → Step s (record s {
          metrics = (begin {E = E} floats c req s.metrics).1;
          pending = s.pending ++ captured req ∷ [];
        })
    finishes :
        (s : System) (before later : List Pending) (p : Pending) (elapsed : F) (answer : Answer)
        → s.pending ≡ before ++ p ∷ later
        → Step s (record s {
          metrics = (finish {E = E} floats c p elapsed answer s.metrics).1;
          pending = before ++ later;
          finished = answered_labels p answer ∷ s.finished;
          measured = length_labels p (answer_length floats answer) ++ s.measured;
        })
    drops :
        (s : System) (before later : List Pending) (p : Pending)
        → s.pending ≡ before ++ p ∷ later
        → Step s (record s { pending = before ++ later; dropped = suc s.dropped })

  pub data Reach (s : System) : System → Type 0 where
    here : Reach s s
    next : {t u : System} → Reach s t → Step t u → Reach s u

  -- The gauge counts the requests that wait and those that were dropped, modulo 2 ^ 64; the counter of
  -- a label set counts the requests that ended with it, and so do its observed durations; the observed
  -- lengths of a method and a path are as many as their responses that gave one.
  pub record IsConsistent (s : System) : Type 0 where
    pub gauge : c.read s.metrics in_flight ≡ int (wrap_i64 (pos (length s.pending + s.dropped)))
    pub totals :
        (ls : List Str)
        → c.read s.metrics (record { metric = requests_total; labels = ls })
          ≡ counter (count ls s.finished % 2 ^ 64)
    pub durations :
        (ls : List Str)
        → (xs : List F) × (c.read s.metrics
              (record { metric = request_duration_seconds; labels = ls })
            ≡ samples xs)
          × (length xs ≡ count ls s.finished)
    pub lengths :
        (ls : List Str)
        → (xs : List F) × (c.read s.metrics (record { metric = response_size_bytes; labels = ls })
            ≡ samples xs)
          × (length xs ≡ count ls s.measured)

module _ {F : Type 0} (E : Type 0) (floats : Floats F) (c : Client HttpMetric F)
    (lawful : IsLawful arity c) where
  length-middle :
      (before later : List Pending) (p : Pending)
      → length (before ++ p ∷ later) ≡ suc (length (before ++ later))
  length-middle before later p =
      omega (arith, length-append before (p ∷ later), length-append before later)

  -- One more, one less, as the gauge reads it.
  gauge_up :
      (m n : ℕ) (r : Reading F)
      → r ≡ int (wrap_i64 (pos m))
      → n ≡ m + 1
      → incremented r ≡ int (wrap_i64 (pos n))
  gauge_up m n r h e = rw (h, e) (ap int (add_one-wrap m))

  gauge_down :
      (m n : ℕ) (r : Reading F)
      → r ≡ int (wrap_i64 (pos m))
      → m ≡ n + 1
      → decremented r ≡ int (wrap_i64 (pos n))
  gauge_down m n r h e = rw (h, e) (ap int (sub_one-wrap n))

  total_up :
      (b : Bool) (n : ℕ) (r : Reading F)
      → r ≡ counter (n % 2 ^ 64)
      → (if b then incremented r else r) ≡ counter ((if b then suc n else n) % 2 ^ 64)
  total_up true n r h = rw h (ap counter (omega arith))
  total_up false n r h = h

  durations_up :
      (b : Bool) (n : ℕ) (x : F) (xs : List F) (r : Reading F)
      → r ≡ samples xs
      → length xs ≡ n
      → (ys : List F) × ((if b then observed x r else r) ≡ samples ys)
        × (length ys ≡ (if b then suc n else n))
  durations_up true n x xs r h e = (x ∷ xs, rw h, ap suc e)
  durations_up false n x xs r h e = (xs, h, e)

  lengths_up :
      (p : Pending) (o : Option F) (ls : List Str) (ended : List (List Str)) (xs : List F)
      (r : Reading F)
      → r ≡ samples xs
      → length xs ≡ count ls ended
      → (ys : List F) × (sized (list_beq (p.method ∷ p.path ∷ []) ls) o r ≡ samples ys)
        × (length ys ≡ count ls (length_labels p o ++ ended))
  lengths_up p none ls ended xs r h e = (xs, h, e)
  lengths_up p (some len) ls ended xs r h e =
      durations_up (list_beq (p.method ∷ p.path ∷ []) ls) (count ls ended) len xs r h e

  read-begin_size :
      (req : Request) (s : c.State) (ls : List Str)
      → c.read
          (begin {E = E} floats c req s).1
          (record { metric = response_size_bytes; labels = ls })
        ≡ c.read s (record { metric = response_size_bytes; labels = ls })
  read-begin_size req s ls = rw (begin_runs floats c lawful {E = E} req s) (simp lawful.read-inc)

  read-finish_size :
      (p : Pending) (elapsed : F) (answer : Answer) (s : c.State) (ls : List Str)
      → c.read
          (finish {E = E} floats c p elapsed answer s).1
          (record { metric = response_size_bytes; labels = ls })
        ≡ sized
            (list_beq (p.method ∷ p.path ∷ []) ls)
            (answer_length floats answer)
            (c.read s (record { metric = response_size_bytes; labels = ls }))
  read-finish_size p elapsed answer s ls =
      rw (finish_runs floats c lawful {E = E} p elapsed answer s)
        (read-answer E floats c lawful p elapsed answer response_size_bytes ls s)

  Step-IsConsistent :
      {s t : System E floats c}
      → Step E floats c s t
      → IsConsistent E floats c s
      → IsConsistent E floats c t
  Step-IsConsistent (begins s req) h = record {
    gauge =
        read-begin-in_flight floats c lawful E req s.metrics
        ∙ gauge_up _ _ _ h.gauge (omega (arith, length-append s.pending (captured req ∷ [])));
    totals = λ ls. read-begin_total floats c lawful E req s.metrics ls ∙ h.totals ls;
    durations = λ ls.
        let (xs, e, n) = h.durations ls in
        (xs, read-begin_duration floats c lawful E req s.metrics ls ∙ e, n);
    lengths = λ ls. let (xs, e, n) = h.lengths ls in (xs, read-begin_size req s.metrics ls ∙ e, n);
  }
  Step-IsConsistent (finishes s before later p elapsed answer e) h = record {
    gauge =
        read-finish-in_flight floats c lawful E p elapsed answer s.metrics
        ∙ gauge_down _ _ _ h.gauge (rw e (omega (arith, length-middle before later p)));
    totals = λ ls.
        read-finish_total floats c lawful E p elapsed answer s.metrics ls
        ∙ total_up (list_beq (answered_labels p answer) ls) (count ls s.finished) _ (h.totals ls);
    durations = λ ls.
        let (xs, r, n) = h.durations ls in
        let (ys, r', n') =
          durations_up (list_beq (answered_labels p answer) ls) (count ls s.finished) elapsed xs _ r
            n in
        (ys, read-finish_duration floats c lawful E p elapsed answer s.metrics ls ∙ r', n');
    lengths = λ ls.
        let (xs, r, n) = h.lengths ls in
        let (ys, r', n') = lengths_up p (answer_length floats answer) ls s.measured xs _ r n in
        (ys, read-finish_size p elapsed answer s.metrics ls ∙ r', n');
  }
  Step-IsConsistent (drops s before later p e) h = record {
    gauge =
        h.gauge
        ∙ ap (λ (n : ℕ). int (wrap_i64 (pos n)))
            (rw e (omega (arith, length-middle before later p)));
    totals = h.totals;
    durations = h.durations;
    lengths = h.lengths;
  }

  -- In every state reached from a consistent one by requests that begin, finish and are dropped, the gauge is the
  -- number of requests that wait plus that of the dropped ones, as a 64-bit integer; each counter of
  -- requests, and each histogram of their durations, has counted the requests that ended with its labels; and
  -- each histogram of lengths the responses with its labels whose header gives one. The client library is
  -- assumed to do what it documents.
  pub Reach-IsConsistent :
      {s t : System E floats c}
      → Reach E floats c s t
      → IsConsistent E floats c s
      → IsConsistent E floats c t
  Reach-IsConsistent here h = h
  Reach-IsConsistent (next r step) h = Step-IsConsistent step (Reach-IsConsistent r h)
