-- ===== src/Postgres/Pool/Status.antt =====
-- The figures of the pool adapters.
use dr_metrix.Prelude.{ℕ, ◌+◌, ◌^◌, ◌<◌, ◌≡◌, arith, leb, if◌then◌else◌}
use dr_metrix.Postgres.Pool.{deadpool_status, r2d2_status}

-- For sizes below 2 ^ 32 the deadpool figures are exact: the idle and the used connections add up to
-- the size of the pool, or to the idle ones if these are more.
pub deadpool_status_exact :
    (max_size size available : ℕ)
    → max_size < 2 ^ 32
    → size < 2 ^ 32
    → available < 2 ^ 32
    → let status = deadpool_status max_size size available in
      (status.max_size ≡ max_size)
      × (status.available ≡ available)
      × (status.in_use + status.available ≡ (if leb available size then size else available))
unfolding deadpool_status
deadpool_status_exact max_size size available h k l = ground arith

-- The two adapters that know a size report the same figures for the same pool.
pub deadpool_status-eq-r2d2_status :
    (max_size size available : ℕ)
    → max_size < 2 ^ 32
    → size < 2 ^ 32
    → available < 2 ^ 32
    → deadpool_status max_size size available ≡ r2d2_status max_size size available
unfolding deadpool_status r2d2_status
deadpool_status-eq-r2d2_status max_size size available h k l = ground arith
