-- ===== src/Tests/Fixtures.antt =====
-- Concrete instances of what the model takes as parameters.
use dr_metrix.Prelude.{
  ◌⊎◌, inl, inr, ap, ℕ, suc, zero, ◌≡◌, refl, Bool, true, false, List, [], ◌∷◌, ◌++◌, Option, none,
  some, ℤ, pos, arith, if◌then◌else◌, IsI64,
}
use dr_metrix.Std.{Str, codes, str_eq, strip_prefix, Floats}
use dr_metrix.Core.Error
use dr_metrix.Core.Error.{prometheus}
use dr_metrix.Core.Registry.{Opts, valid_opts, Registry, IsRegistry, all_fresh, add_all}
use dr_metrix.Mongo.Collect.{Documents}
use dr_metrix.Postgres.Pool.{Answer, value, failure, Json}
use dr_metrix.Axum.State.{Runtime, IsRuntime}

-- A type of floats with the two values 0 and 1.5.
abbrev pub print_f64 : Bool → Str
print_f64 f = if f then codes "1.5" else codes "0"

abbrev pub truncate : Bool → ℤ
truncate f = if f then pos 1 else pos 0

pub truncate-IsI64 : (f : Bool) → IsI64 (truncate f)
truncate-IsI64 f = ground arith

abbrev pub floats : Floats Bool
floats = record {
  zero = false;
  parse_f64 = λ s.
      if str_eq s (codes "1.5")
      then some true
      else if str_eq s (codes "0")
      then some false
      else none;
  as_i64 = truncate;
  as_i64-IsI64 = truncate-IsI64;
}

pub parse-print_f64 : (f : Bool) → floats.parse_f64 (print_f64 f) ≡ some f
unfolding str_eq
parse-print_f64 true = refl
parse-print_f64 false = refl

-- Documents as lists of dotted keys.
abbrev entered : Option Str → ℤ → List (Str × ℤ) → List (Str × ℤ)
entered none v rest = rest
entered (some key) v rest = (key, v) ∷ rest

abbrev enter : Str → List (Str × ℤ) → List (Str × ℤ)
enter key [] = []
enter key ((k, v) ∷ doc) = entered (strip_prefix k (key ++ b'.' ∷ [])) v (enter key doc)

abbrev unless_empty : List (Str × ℤ) → Option (List (Str × ℤ))
unless_empty [] = none
unless_empty (field ∷ doc) = some (field ∷ doc)

abbrev look_up : {A : Type 0} → List (Str × A) → Str → Option A
look_up [] key = none
look_up ((k, v) ∷ doc) key = let rest = look_up doc key in if str_eq k key then some v else rest

abbrev pub docs : Documents
docs = record {
  Document = List (Str × ℤ);
  get_document = λ doc key. unless_empty (enter key doc);
  get_i64 = look_up;
}

-- JSON with objects of integers and texts; a text that starts with `{` is an object with one member.
pub data Scalar : Type 0 where
  number : ℤ → Scalar
  text : Str → Scalar

pub data Value : Type 0 where
  scalar : Scalar → Value
  object : List (Str × Scalar) → Value

abbrev parsed : Str → Answer Value
parsed [] = failure (codes "empty")
parsed (c ∷ s) = value (
    if str_eq (c ∷ []) (codes "{")
    then object ((codes "text", text s) ∷ [])
    else scalar (text (c ∷ s)))

abbrev object_of : Value → Option (List (Str × Scalar))
object_of (object fields) = some fields
object_of (scalar s) = none

abbrev number_of : Value → Option ℤ
number_of (scalar (number n)) = some n
number_of (scalar (text s)) = none
number_of (object fields) = none

abbrev text_of : Value → Option Str
text_of (scalar (text s)) = some s
text_of (scalar (number n)) = none
text_of (object fields) = none

abbrev member : Option Scalar → Option Value
member none = none
member (some s) = some (scalar s)

abbrev pub json : Json Bool
json = record {
  Value = Value;
  Map = List (Str × Scalar);
  from_str = parsed;
  as_object = object_of;
  get = λ fields key. member (look_up fields key);
  as_i64 = number_of;
  as_f64 = λ v. none;
  as_str = text_of;
}

-- A registry that is the list of what it took.
abbrev pub registry : Registry (Unit {0})
registry = record {
  State = List Opts;
  new = [];
  create = λ o. if valid_opts o then none else some tt;
  register = λ os s. if all_fresh s os then Error.ok (add_all s os) else Error.err (prometheus tt);
  registered = λ s. s;
}

pub registry-IsRegistry : IsRegistry registry
registry-IsRegistry = record {
  create_valid = λ o h. rw h;
  registered-new = refl;
  register_fresh = λ os s h. (add_all s os, rw h, refl);
  register_taken = λ os s h. (tt, rw h);
}

-- A runtime that lists for each task whether it is live.
abbrev runs_at : List Bool → ℕ → Bool
runs_at [] h = false
runs_at (b ∷ s) zero = b
runs_at (b ∷ s) (suc h) = runs_at s h

abbrev stop_at : ℕ → List Bool → List Bool
stop_at h [] = []
stop_at zero (b ∷ s) = false ∷ s
stop_at (suc h) (b ∷ s) = b ∷ stop_at h s

abbrev size : List Bool → ℕ
size [] = zero
size (b ∷ s) = suc (size s)

abbrev pub runtime : Runtime
runtime = record {
  State = List Bool;
  JoinHandle = ℕ;
  spawn = λ d s. (size s, s ++ true ∷ []);
  abort = stop_at;
  live = runs_at;
}

runs_at-append : (s : List Bool) → runs_at (s ++ true ∷ []) (size s) ≡ true
runs_at-append [] = refl
runs_at-append (b ∷ s) = runs_at-append s

runs_at-stop_at : (h : ℕ) (s : List Bool) → runs_at (stop_at h s) h ≡ false
runs_at-stop_at h [] = refl
runs_at-stop_at zero (b ∷ s) = refl
runs_at-stop_at (suc h) (b ∷ s) = runs_at-stop_at h s

stop_at-stopped : (h k : ℕ) (s : List Bool) → runs_at s h ≡ false → runs_at (stop_at k s) h ≡ false
stop_at-stopped h k [] e = refl
stop_at-stopped zero zero (b ∷ s) e = refl
stop_at-stopped zero (suc k) (b ∷ s) e = e
stop_at-stopped (suc h) zero (b ∷ s) e = e
stop_at-stopped (suc h) (suc k) (b ∷ s) e = stop_at-stopped h k s e

stop_at-only :
    (h k : ℕ) (s : List Bool) → runs_at s k ≡ true → (k ≡ h) ⊎ (runs_at (stop_at h s) k ≡ true)
stop_at-only h k [] e = inr e
stop_at-only zero zero (b ∷ s) e = inl refl
stop_at-only zero (suc k) (b ∷ s) e = inr e
stop_at-only (suc h) zero (b ∷ s) e = inr e
stop_at-only (suc h) (suc k) (b ∷ s) e = elim (stop_at-only h k s e) [
  | inl same ↦ inl (ap suc same)
  | inr still ↦ inr still
]

runs_at-size : (s : List Bool) → runs_at s (size s) ≡ false
runs_at-size [] = refl
runs_at-size (b ∷ s) = runs_at-size s

runs_at-append_only :
    (s : List Bool) (k : ℕ)
    → runs_at (s ++ true ∷ []) k ≡ true
    → (k ≡ size s) ⊎ (runs_at s k ≡ true)
runs_at-append_only [] zero h = inl refl
runs_at-append_only [] (suc k) h = cc
runs_at-append_only (b ∷ s) zero h = inr h
runs_at-append_only (b ∷ s) (suc k) h = elim (runs_at-append_only s k h) [
  | inl e ↦ inl (ap suc e)
  | inr p ↦ inr p
]

pub runtime-IsRuntime : IsRuntime runtime
runtime-IsRuntime = record {
  live-spawn = λ d s. runs_at-append s;
  spawn_new = λ d s. runs_at-size s;
  spawn_only = λ d s k. runs_at-append_only s k;
  live-abort = runs_at-stop_at;
  abort_stopped = stop_at-stopped;
  abort_only = stop_at-only;
}
