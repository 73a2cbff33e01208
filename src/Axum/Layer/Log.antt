-- ===== src/Axum/Layer/Log.antt =====
-- The metrics as a function of what happened: a log of requests that begin and of requests that are answered,
-- in the order in which their tasks get there.
use dr_metrix.Prelude.{
  ◌≡◌, refl, ap, ◌∙◌, List, [], ◌∷◌, ◌++◌, Option, none, some, Bool, if◌then◌else◌, list_beq,
  nat_eq, list_eq, ◌==◌,
}
use dr_metrix.Std.{Str, Floats}
use dr_metrix.Core.Exec.{Exec, ok, ◌>>◌, pure}
use dr_metrix.Core.Metrics.{
  Client, IsLawful, Reading, incremented, decremented, observed, Series, series_eq,
}
use dr_metrix.Axum.Fields.{
  HttpMetric, http_metric_eq, arity, requests_total, request_duration_seconds, requests_in_flight,
  response_size_bytes,
}
use dr_metrix.Axum.Layer.{Request, Answer, response, error, Pending, in_flight, begin, finish}
use dr_metrix.Axum.Layer.Requests.Effects.{
  captured, header_length, answered_labels, begin_runs, finish_runs, finish_state, size_state,
  ended_state, read-finish_state,
}

pub data Event (F : Type 0) : Type 0 where
  begins : Request → Event F
  answers : Request → F → Answer → Event F

-- The length that an answer states, if it is a response that states one.
abbrev pub answer_length : {F : Type 0} → Floats F → Answer → Option F
answer_length floats (response r) = header_length floats r.content_length
answer_length floats (error message) = none

abbrev pub sized : {F : Type 0} → Bool → Option F → Reading F → Reading F
sized mine none old = old
sized mine (some len) old = if mine then observed len old else old

-- What an answer makes of the reading of a series.
abbrev pub answer_reading :
    {F : Type 0} → Floats F → Pending → F → Answer → HttpMetric → List Str → Reading F → Reading F
answer_reading floats p elapsed answer requests_in_flight ls old =
    if list_beq [] ls then decremented old else old
answer_reading floats p elapsed answer requests_total ls old =
    if list_beq (answered_labels p answer) ls then incremented old else old
answer_reading floats p elapsed answer request_duration_seconds ls old =
    if list_beq (answered_labels p answer) ls then observed elapsed old else old
answer_reading floats p elapsed answer response_size_bytes ls old =
    sized (list_beq (p.method ∷ p.path ∷ []) ls) (answer_length floats answer) old

abbrev event_reading : {F : Type 0} → Floats F → Event F → Series HttpMetric → Reading F → Reading F
event_reading floats (begins req) k old = if in_flight == k then incremented old else old
event_reading floats (answers req elapsed answer) k old =
    answer_reading floats (captured req) elapsed answer k.metric k.labels old

-- What the events make of a reading, one after the other.
abbrev pub logged :
    {F : Type 0} → Floats F → List (Event F) → Series HttpMetric → Reading F → Reading F
logged floats [] k old = old
logged floats (e ∷ es) k old = logged floats es k (event_reading floats e k old)

-- A log that goes on.
pub logged-append :
    {F : Type 0} (floats : Floats F) (es fs : List (Event F)) (k : Series HttpMetric)
    (old : Reading F)
    → logged floats (es ++ fs) k old ≡ logged floats fs k (logged floats es k old)
logged-append floats [] fs k old = refl
logged-append floats (e ∷ es) fs k old = logged-append floats es fs k (event_reading floats e k old)

module _ {F E : Type 0} (floats : Floats F) (c : Client HttpMetric F) where
  abbrev happen : Event F → Exec c.State E (Unit {0})
  happen (begins req) = do begin floats c req; pure tt
  happen (answers req elapsed answer) = finish floats c (captured req) elapsed answer

  unfoldable pub happen_all : List (Event F) → Exec c.State E (Unit {0})
  happen_all [] = pure tt
  happen_all (e ∷ es) = do happen e; happen_all es

module _ {F : Type 0} (E : Type 0) (floats : Floats F) (c : Client HttpMetric F)
    (lawful : IsLawful arity c) where
  read-size_reading :
      (p : Pending) (len : Option F) (elapsed : F) (status : Str) (ls : List Str) (s : c.State)
      → c.read
          (size_state floats c lawful p len (ended_state floats c lawful p elapsed status s))
          (record { metric = response_size_bytes; labels = ls })
        ≡ sized
            (list_beq (p.method ∷ p.path ∷ []) ls)
            len
            (c.read s (record { metric = response_size_bytes; labels = ls }))
  unfolding size_state
  read-size_reading p none elapsed status ls s =
      simp (lawful.read-observe, lawful.read-inc, lawful.read-dec)
  read-size_reading p (some len) elapsed status ls s =
      simp (lawful.read-observe, lawful.read-inc, lawful.read-dec)

  pub read-answer :
      (p : Pending) (elapsed : F) (answer : Answer) (m : HttpMetric) (ls : List Str) (s : c.State)
      → c.read
          (finish_state floats c lawful p elapsed answer s)
          (record { metric = m; labels = ls })
        ≡ answer_reading floats p elapsed answer m ls
            (c.read s (record { metric = m; labels = ls }))
  unfolding finish_state
  read-answer p elapsed (response r) response_size_bytes ls s =
      read-size_reading p (header_length floats r.content_length) elapsed _ ls s
  read-answer p elapsed (error message) response_size_bytes ls s =
      simp (lawful.read-observe, lawful.read-inc, lawful.read-dec)
  read-answer p elapsed answer requests_in_flight ls s =
      read-finish_state floats c lawful p elapsed answer requests_in_flight ls s (λ e. cc)
      ∙ simp (lawful.read-observe, lawful.read-inc, lawful.read-dec)
  read-answer p elapsed answer requests_total ls s =
      read-finish_state floats c lawful p elapsed answer requests_total ls s (λ e. cc)
      ∙ simp (lawful.read-observe, lawful.read-inc, lawful.read-dec)
  read-answer p elapsed answer request_duration_seconds ls s =
      read-finish_state floats c lawful p elapsed answer request_duration_seconds ls s (λ e. cc)
      ∙ simp (lawful.read-observe, lawful.read-inc, lawful.read-dec)

  -- Code that runs through: the state behind an event.
  event_state : Event F → c.State → c.State
  event_state (begins req) s = c.inc in_flight s
  event_state (answers req elapsed answer) s =
      finish_state floats c lawful (captured req) elapsed answer s

  happen_runs : (e : Event F) (s : c.State) → happen {E = E} floats c e s ≡ (ok tt, event_state e s)
  unfolding event_state
  happen_runs (begins req) s = rw (begin_runs floats c lawful {E = E} req s)
  happen_runs (answers req elapsed answer) s =
      finish_runs floats c lawful (captured req) elapsed answer s

  read-event_state :
      (e : Event F) (s : c.State) (k : Series HttpMetric)
      → c.read (event_state e s) k ≡ event_reading floats e k (c.read s k)
  unfolding event_state
  read-event_state (begins req) s k = lawful.read-inc in_flight k s
  read-event_state (answers req elapsed answer) s k =
      read-answer (captured req) elapsed answer k.metric k.labels s

  -- One request that begins and is then answered.
  pub read-one_request :
      (req : Request) (elapsed : F) (answer : Answer) (s : c.State) (k : Series HttpMetric)
      → c.read (finish_state floats c lawful (captured req) elapsed answer (c.inc in_flight s)) k
        ≡ logged floats (begins req ∷ answers req elapsed answer ∷ []) k (c.read s k)
  read-one_request req elapsed answer s k =
      read-answer (captured req) elapsed answer k.metric k.labels (c.inc in_flight s)
      ∙ ap (answer_reading floats (captured req) elapsed answer k.metric k.labels)
          (lawful.read-inc in_flight k s)

  pub follow_log :
      (events : List (Event F)) (s : c.State) (k : Series HttpMetric)
      → let done = happen_all {E = E} floats c events s in
        (done.0 ≡ ok tt) × (c.read done.1 k ≡ logged floats events k (c.read s k))
  unfolding happen_all
  follow_log [] s k = (refl, refl)
  follow_log (e ∷ es) s k = rw (happen_runs e s) (
      let (runs, reads) = follow_log es (event_state e s) k in
      (runs, reads ∙ ap (logged floats es k) (read-event_state e s k)))

  -- A call hands its future the method of its request, and the template of its route, or its own path where there is
  -- none. Whatever requests begin and are answered, in any order, their futures then run through, and every
  -- series of the four metrics reads as the log says: the gauge goes up at each begin and down at each
  -- answer, and an answer counts once, with its duration, under this method, this path and its status, or 500
  -- for an error; a response is observed with the length that its header gives, if it has one that is a
  -- text and parses. The client library is assumed to do what it documents.
  pub metrics_follow_log :
      (events : List (Event F)) (s : c.State) (k : Series HttpMetric)
      → let done = happen_all {E = E} floats c events s in
        ((req : Request) (t : c.State) → (begin {E = E} floats c req t).0 ≡ ok (captured req))
        × (done.0 ≡ ok tt)
        × (c.read done.1 k ≡ logged floats events k (c.read s k))
  metrics_follow_log events s k =
      let (runs, reads) = follow_log events s k in
      (λ req t. ap (λ d. d.0) (begin_runs floats c lawful {E = E} req t), runs, reads)
