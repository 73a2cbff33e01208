-- ===== src/Axum/State/Handles.antt =====
-- Lists of handles, each with the name of its collector.
use dr_metrix.Prelude.{◌≡◌, refl, ◌⊎◌, inl, inr, List, [], ◌∷◌, ◌++◌, All}
use dr_metrix.Std.{Str}

-- A task is among the handles.
abbrev pub IsKept : {H : Type 0} → List (Str × H) → H → Type 0
IsKept [] k = ⊥
IsKept ((name, h) ∷ hs) k = (k ≡ h) ⊎ IsKept hs k

pub IsKept-last :
    {H : Type 0} (hs : List (Str × H)) (name : Str) (h : H) → IsKept (hs ++ (name, h) ∷ []) h
IsKept-last [] name h = inl refl
IsKept-last ((n, g) ∷ hs) name h = inr (IsKept-last hs name h)

pub IsKept-append :
    {H : Type 0} (hs gs : List (Str × H)) (k : H) → IsKept hs k → IsKept (hs ++ gs) k
IsKept-append [] gs k h = elim h [ ]
IsKept-append ((n, g) ∷ hs) gs k (inl e) = inl e
IsKept-append ((n, g) ∷ hs) gs k (inr h) = inr (IsKept-append hs gs k h)

pub All_at :
    {H : Type 0} (P : H → Type 0) (hs : List (Str × H)) (k : H)
    → All (λ named. P named.1) hs
    → IsKept hs k
    → P k
All_at P [] k ps h = elim h [ ]
All_at P ((n, g) ∷ hs) k (p, ps) (inl e) = rw e p
All_at P ((n, g) ∷ hs) k (p, ps) (inr h) = All_at P hs k ps h
