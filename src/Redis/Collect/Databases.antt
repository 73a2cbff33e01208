-- ===== src/Redis/Collect/Databases.antt =====
-- The series of the databases, told apart by the numbers of the databases.
use mathlib.Core.Option.{some-injective}
use dr_metrix.Prelude.{
  ℕ, ◌≡◌, refl, sym, ap, ◌∙◌, Bool, List, [], ◌∷◌, ◌++◌, Option, none, some, ℤ, if◌then◌else◌, ◌==◌,
  nat_eq, list_eq, list_beq, list_beq_iff, Bool-cases, inl, inr,
}
use dr_metrix.Std.{Str, Floats, codes, print_nat}
use dr_metrix.Std.Number.{magnitude}
use dr_metrix.Std.Numerals.{magnitude-print_nat}
use dr_metrix.Core.Metrics.{Client, IsLawful, Reading, int, Series}
use dr_metrix.Redis.Info.{RedisInfo, KeyspaceEntry, parse_info}
use dr_metrix.Redis.Fields.{RedisMetric, redis_metric_eq, arity, db_keys, db_expires}
use dr_metrix.Redis.Collect.{text, db_label, collect}
use dr_metrix.Redis.Collect.Readings.{collect-text, collected_reading, last_entry, db_reading}

-- The series of the database with a number: its label is `db` and the number in decimal.
abbrev pub database_series : RedisMetric → ℕ → Series RedisMetric
database_series m db = record { metric = m; labels = (codes "db" ++ print_nat db) ∷ [] }

-- The keys and the expiring keys of the last entry for a number.
unfoldable pub last_counts : ℕ → List KeyspaceEntry → Option (ℤ × ℤ)
last_counts db [] = none
last_counts db ((n, keys, expires) ∷ es) = elim (last_counts db es) [
  | some r ↦ some r
  | none ↦ if n == db then some (keys, expires) else none
]

abbrev pub shown : {F : Type 0} → Option ℤ → Reading F → Reading F
shown (some n) old = int n
shown none old = old

abbrev pub keys_of : Option (ℤ × ℤ) → Option ℤ
keys_of (some (keys, expires)) = some keys
keys_of none = none

abbrev pub expires_of : Option (ℤ × ℤ) → Option ℤ
expires_of (some (keys, expires)) = some expires
expires_of none = none

print_nat-injective : (a b : ℕ) → print_nat a ≡ print_nat b → a ≡ b
print_nat-injective a b h =
    some-injective _ _ (sym (magnitude-print_nat a) ∙ ap magnitude h ∙ magnitude-print_nat b)

abbrev head_or : List Str → Str
head_or [] = []
head_or (l ∷ ls) = l

abbrev after_db : Str → Str
after_db (d ∷ b ∷ s) = s
after_db _ = []

label-injective : (a b : ℕ) → db_label a ∷ [] ≡ db_label b ∷ [] → a ≡ b
label-injective a b h = print_nat-injective a b (ap (λ ls. after_db (head_or ls)) h)

same_label : (a b : ℕ) → list_beq (db_label a ∷ []) (db_label b ∷ []) ≡ (a == b)
same_label a b = elim (Bool-cases (a == b)) [
  | inl same ↦
      let e = (nat_eq.beq_iff a b).0 same in
      (list_beq_iff (db_label a ∷ []) (db_label b ∷ [])).1 (rw e refl) ∙ sym same
  | inr other ↦ elim (Bool-cases (list_beq (db_label a ∷ []) (db_label b ∷ []))) [
    | inl labels ↦
        let e = label-injective a b ((list_beq_iff (db_label a ∷ []) (db_label b ∷ [])).0 labels) in
        let same = (nat_eq.beq_iff a b).1 e in cc
    | inr differ ↦ differ ∙ sym other
  ]
]

latest_eq :
    (x y : Option (ℤ × ℤ)) (p q : Bool) (v : ℤ × ℤ)
    → x ≡ y
    → p ≡ q
    → elim x [ some r ↦ some r | none ↦ if p then some v else none ]
      ≡ elim y [ some r ↦ some r | none ↦ if q then some v else none ]
latest_eq none y p q v e f = rw (← e, f) refl
latest_eq (some r) y p q v e f = rw (← e) refl

last_entry-last_counts :
    (db : ℕ) (es : List KeyspaceEntry)
    → last_entry ((codes "db" ++ print_nat db) ∷ []) es ≡ last_counts db es
unfolding last_entry last_counts
last_entry-last_counts db [] = refl
last_entry-last_counts db ((n, keys, expires) ∷ es) =
    latest_eq _ _ _ _ (keys, expires) (last_entry-last_counts db es) (same_label n db)

keys_shown :
    {F : Type 0} (ls : List Str) (es : List KeyspaceEntry) (counts : Option (ℤ × ℤ))
    (old : Reading F)
    → last_entry ls es ≡ counts
    → db_reading db_keys ls es old ≡ shown (keys_of counts) old
unfolding db_reading
keys_shown ls es none old h = rw (h, db_reading) refl
keys_shown ls es (some (keys, expires)) old h = rw (h, db_reading) refl

expires_shown :
    {F : Type 0} (ls : List Str) (es : List KeyspaceEntry) (counts : Option (ℤ × ℤ))
    (old : Reading F)
    → last_entry ls es ≡ counts
    → db_reading db_expires ls es old ≡ shown (expires_of counts) old
unfolding db_reading
expires_shown ls es none old h = rw (h, db_reading) refl
expires_shown ls es (some (keys, expires)) old h = rw (h, db_reading) refl

module _ {F : Type 0} (E : Type 0) (floats : Floats F) (c : Client RedisMetric F)
    (lawful : IsLawful arity c) where
  -- After a collection that the server answered, the two series of each database show the last counts that
  -- the text gives for its number, or what was there if it gives none: databases are kept apart by
  -- their numbers. The client library is assumed to do what it documents.
  pub databases_kept_apart :
      (size db : ℕ) (raw : Str) (info : RedisInfo F) (s : c.State)
      → parse_info floats raw ≡ some info
      → let done = collect {E = E} floats c (record { size = size; info = text raw }) s in
        let counts = last_counts db info.keyspace in
        (c.read done.1 (database_series db_keys db)
          ≡ shown (keys_of counts) (c.read s (database_series db_keys db)))
        × (c.read done.1 (database_series db_expires db)
            ≡ shown (expires_of counts) (c.read s (database_series db_expires db)))
  unfolding collected_reading
  databases_kept_apart size db raw info s h =
      let (info', parsed, _, reads) = collect-text E floats c lawful size raw s in
      let same : info' ≡ info = some-injective _ _ (sym parsed ∙ h) in
      let at = last_entry-last_counts db info.keyspace in
      (
        reads db_keys (database_series db_keys db).labels
            ∙ rw same (keys_shown _ info.keyspace _ _ at),
        reads db_expires (database_series db_expires db).labels
            ∙ rw same (expires_shown _ info.keyspace _ _ at),
      )
