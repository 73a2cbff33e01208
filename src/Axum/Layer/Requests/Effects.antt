-- ===== src/Axum/Layer/Requests/Effects.antt =====
-- The readings that `begin` and `finish` leave.
use dr_metrix.Prelude.{
  ℕ, unwrap_or, ◌≡◌, ◌≢◌, refl, ◌∙◌, List, [], ◌∷◌, Option, none, some, if◌then◌else◌, list_beq,
  nat_eq, list_eq,
}
use dr_metrix.Std.{Str, codes, print_nat, Floats}
use dr_metrix.Core.Exec.{ok}
use dr_metrix.Core.Metrics.{Client, IsLawful, incremented, decremented, observed, series_eq}
use dr_metrix.Axum.Fields.{
  HttpMetric, arity, http_metric_eq, requests_total, request_duration_seconds, requests_in_flight,
  response_size_bytes,
}
use dr_metrix.Axum.Layer.{
  Request, HeaderValue, visible, opaque, Response, Answer, response, error, Pending, in_flight,
  status_labels, stated_length, begin, finish, observe_size,
}

-- The path that a request is counted under: the template of its route, or its own path where there is none.
abbrev pub route_label : Option Str → Str → Str
route_label none path = path
route_label (some template) path = template

-- What the future of a request holds.
abbrev pub captured : Request → Pending
captured req = record { method = req.method; path = route_label req.matched_path req.uri_path }

-- The number that a header gives: that of a text which parses, and none otherwise.
abbrev pub header_length : {F : Type 0} → Floats F → Option HeaderValue → Option F
header_length floats none = none
header_length floats (some opaque) = none
header_length floats (some (visible text)) = floats.parse_f64 text

unwrap_or-route_label : (o : Option Str) (path : Str) → unwrap_or o path ≡ route_label o path
unwrap_or-route_label none path = refl
unwrap_or-route_label (some template) path = refl

stated_length-header :
    {F : Type 0} (floats : Floats F) (r : Response)
    → stated_length floats r ≡ header_length floats r.content_length
unfolding stated_length
stated_length-header floats r = by_header r.status r.content_length
  where
    by_header :
        (status : ℕ) (o : Option HeaderValue)
        → stated_length floats (record { status = status; content_length = o })
          ≡ header_length floats o
    by_header status none = refl
    by_header status (some opaque) = refl
    by_header status (some (visible text)) = refl

abbrev pub status_text : Answer → Str
status_text (response r) = print_nat r.status
status_text (error message) = codes "500"

abbrev pub answered_labels : Pending → Answer → List Str
answered_labels p answer = status_labels p (status_text answer)

module _ {F : Type 0} (floats : Floats F) (c : Client HttpMetric F)
    (lawful : IsLawful arity c) where
  pub begin_runs :
      {E : Type 0} (req : Request) (s : c.State)
      → begin {E = E} floats c req s ≡ (ok (captured req), c.inc in_flight s)
  unfolding begin
  begin_runs req s = rw (unwrap_or-route_label req.matched_path req.uri_path) refl

  unfoldable pub size_state : Pending → Option F → c.State → c.State
  size_state p none s = s
  size_state p (some len) s =
      c.observe (record { metric = response_size_bytes; labels = p.method ∷ p.path ∷ [] }) len s

  abbrev pub ended_state : Pending → F → Str → c.State → c.State
  ended_state p elapsed status s =
      c.observe (record { metric = request_duration_seconds; labels = status_labels p status })
        elapsed
        (c.inc (record { metric = requests_total; labels = status_labels p status })
          (c.dec in_flight s))

  unfoldable pub finish_state : Pending → F → Answer → c.State → c.State
  finish_state p elapsed (response r) s =
      size_state p (header_length floats r.content_length)
        (ended_state p elapsed (print_nat r.status) s)
  finish_state p elapsed (error message) s = ended_state p elapsed (codes "500") s

  observe_size_runs :
      {E : Type 0} (p : Pending) (len : Option F) (s : c.State)
      → observe_size {E = E} floats c p len s ≡ (ok tt, size_state p len s)
  unfolding observe_size size_state arity
  observe_size_runs p none s = refl
  observe_size_runs p (some len) s =
      rw (lawful.accepts_arity response_size_bytes (p.method ∷ p.path ∷ []) refl)

  -- The future runs through, whatever the inner service answers.
  pub finish_runs :
      {E : Type 0} (p : Pending) (elapsed : F) (answer : Answer) (s : c.State)
      → finish {E = E} floats c p elapsed answer s ≡ (ok tt, finish_state p elapsed answer s)
  unfolding finish finish_state arity
  finish_runs p elapsed (response r) s =
      rw
        (
          stated_length-header floats r,
          lawful.accepts_arity requests_total (status_labels p (print_nat r.status)) refl,
          lawful.accepts_arity request_duration_seconds (status_labels p (print_nat r.status)) refl,
        )
        (observe_size_runs p (header_length floats r.content_length) _)
  finish_runs p elapsed (error message) s =
      rw
        (
          lawful.accepts_arity requests_total (status_labels p (codes "500")) refl,
          lawful.accepts_arity request_duration_seconds (status_labels p (codes "500")) refl,
        )
        refl

  read-size_state :
      (p : Pending) (len : Option F) (m : HttpMetric) (ls : List Str) (s : c.State)
      → m ≢ response_size_bytes
      → c.read (size_state p len s) (record { metric = m; labels = ls })
        ≡ c.read s (record { metric = m; labels = ls })
  unfolding size_state
  read-size_state p none m ls s h = refl
  read-size_state p (some len) response_size_bytes ls s h = absurd (h refl)
  read-size_state p (some len) _ ls s h = simp lawful.read-observe

  pub read-finish_state :
      (p : Pending) (elapsed : F) (answer : Answer) (m : HttpMetric) (ls : List Str) (s : c.State)
      → m ≢ response_size_bytes
      → c.read (finish_state p elapsed answer s) (record { metric = m; labels = ls })
        ≡ c.read (ended_state p elapsed (status_text answer) s) (record { metric = m; labels = ls })
  unfolding finish_state
  read-finish_state p elapsed (response r) m ls s h =
      read-size_state p (header_length floats r.content_length) m ls _ h
  read-finish_state p elapsed (error message) m ls s h = refl

  module _ (E : Type 0) (p : Pending) (elapsed : F) (answer : Answer) (s : c.State) where
    read-finish :
        (m : HttpMetric) (ls : List Str)
        → m ≢ response_size_bytes
        → c.read (finish {E = E} floats c p elapsed answer s).1 (record { metric = m; labels = ls })
          ≡ c.read
              (ended_state p elapsed (status_text answer) s)
              (record { metric = m; labels = ls })
    read-finish m ls h =
        rw (finish_runs {E = E} p elapsed answer s) (read-finish_state p elapsed answer m ls s h)

    pub read-finish-in_flight :
        c.read (finish {E = E} floats c p elapsed answer s).1 in_flight
        ≡ decremented (c.read s in_flight)
    unfolding list_beq
    read-finish-in_flight =
        read-finish requests_in_flight [] (λ e. cc)
        ∙ simp (lawful.read-observe, lawful.read-inc, lawful.read-dec)

    pub read-finish_total :
        (ls : List Str)
        → c.read
            (finish {E = E} floats c p elapsed answer s).1
            (record { metric = requests_total; labels = ls })
          ≡ (let old = c.read s (record { metric = requests_total; labels = ls }) in
              if list_beq (answered_labels p answer) ls then incremented old else old)
    read-finish_total ls =
        read-finish requests_total ls (λ e. cc)
        ∙ simp (lawful.read-observe, lawful.read-inc, lawful.read-dec)

    pub read-finish_duration :
        (ls : List Str)
        → c.read
            (finish {E = E} floats c p elapsed answer s).1
            (record { metric = request_duration_seconds; labels = ls })
          ≡ (let old = c.read s (record { metric = request_duration_seconds; labels = ls }) in
              if list_beq (answered_labels p answer) ls then observed elapsed old else old)
    read-finish_duration ls =
        read-finish request_duration_seconds ls (λ e. cc)
        ∙ simp (lawful.read-observe, lawful.read-inc, lawful.read-dec)

  module _ (E : Type 0) (req : Request) (s : c.State) where
    pub read-begin-in_flight :
        c.read (begin {E = E} floats c req s).1 in_flight ≡ incremented (c.read s in_flight)
    unfolding begin list_beq
    read-begin-in_flight = simp lawful.read-inc

    pub read-begin_total :
        (ls : List Str)
        → c.read (begin {E = E} floats c req s).1 (record { metric = requests_total; labels = ls })
          ≡ c.read s (record { metric = requests_total; labels = ls })
    unfolding begin
    read-begin_total ls = simp lawful.read-inc

    pub read-begin_duration :
        (ls : List Str)
        → c.read
            (begin {E = E} floats c req s).1
            (record { metric = request_duration_seconds; labels = ls })
          ≡ c.read s (record { metric = request_duration_seconds; labels = ls })
    unfolding begin
    read-begin_duration ls = simp lawful.read-inc
