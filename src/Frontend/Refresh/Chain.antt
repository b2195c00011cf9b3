-- ===== src/Frontend/Refresh/Chain.antt =====
-- How many reads of the catalog are awaited, whatever order their answers come in
-- (services/hearthdeck-frontend/src/app/refresh.rs).
use hearthdeck.Prelude.{
  ℕ, ◌+◌, ◌≤◌, ◌≡◌, refl, Bool, true, false, not, ◌&&◌, if◌then◌else◌, ltb, leb, ◌==◌, ==_iff, List,
  [], ◌∷◌, ◌++◌, arith,
}
use hearthdeck.Frontend.Refresh.{
  Read, read_catalog, read_consoles, read_collections, read_categorization,
}

-- Whether a read is one of the catalog with an identity.
abbrev pub is_live : ℕ → Read → Bool
is_live k (read_catalog i _) = i == k
is_live k _ = false

abbrev pub is_catalog : Read → Bool
is_catalog (read_catalog _ _) = true
is_catalog _ = false

-- Whether a read is not one of the catalog that was asked for later than an identity.
abbrev pub is_known : ℕ → Read → Bool
is_known k (read_catalog i _) = leb i k
is_known k _ = true

unfoldable pub live : ℕ → List Read → ℕ
live k [] = 0
live k (r ∷ reads) = let rest = live k reads in if is_live k r then rest + 1 else rest

unfoldable pub known : ℕ → List Read → Bool
known k [] = true
known k (r ∷ reads) = is_known k r && known k reads

unfoldable pub others : List Read → Bool
others [] = true
others (r ∷ reads) = not (is_catalog r) && others reads

-- Whether a read of the catalog is one of a retry, which waits before it is made.
abbrev pub is_retry : Read → Bool
is_retry (read_catalog _ delay) = ltb 0 delay
is_retry _ = false

unfoldable pub retries : List Read → ℕ
retries [] = 0
retries (r ∷ reads) = let rest = retries reads in if is_retry r then rest + 1 else rest

-- The retries with an identity.
unfoldable pub live_retries : ℕ → List Read → ℕ
live_retries k [] = 0
live_retries k (r ∷ reads) =
    let rest = live_retries k reads in if is_live k r && is_retry r then rest + 1 else rest

-- At most one awaited read is the latest; a retry is awaited just while the flag says so, one alone,
-- and it is the latest.
abbrev pub IsChained : ℕ → Bool → List Read → Type 0
IsChained k retrying flight =
    (known k flight ≡ true)
    × (live k flight ≤ 1)
    × (retries flight ≡ (if retrying then 1 else 0))
    × (live_retries k flight ≡ retries flight)

live-++ : (k : ℕ) (xs ys : List Read) → live k (xs ++ ys) ≡ live k xs + live k ys
unfolding live
live-++ k [] ys = omega arith
live-++ k (r ∷ xs) ys = ground (arith, live-++ k xs ys)

known-++ : (k : ℕ) (xs ys : List Read) → known k (xs ++ ys) ≡ (known k xs && known k ys)
unfolding known
known-++ k [] ys = refl
known-++ k (r ∷ xs) ys = ground (arith, known-++ k xs ys)

retries-++ : (xs ys : List Read) → retries (xs ++ ys) ≡ retries xs + retries ys
unfolding retries
retries-++ [] ys = omega arith
retries-++ (r ∷ xs) ys = ground (arith, retries-++ xs ys)

live_retries-++ :
    (k : ℕ) (xs ys : List Read) → live_retries k (xs ++ ys) ≡ live_retries k xs + live_retries k ys
unfolding live_retries
live_retries-++ k [] ys = omega arith
live_retries-++ k (r ∷ xs) ys = ground (arith, live_retries-++ k xs ys)

live_retries-Bounded :
    (k : ℕ) (reads : List Read)
    → (live_retries k reads ≤ live k reads) × (live_retries k reads ≤ retries reads)
unfolding live_retries live retries
live_retries-Bounded k [] = (omega arith, omega arith)
live_retries-Bounded k (r ∷ reads) = ground (arith, live_retries-Bounded k reads)

others-none :
    (k : ℕ) (reads : List Read)
    → others reads ≡ true
    → (known k reads ≡ true) × (live k reads ≡ 0) × (retries reads ≡ 0)
unfolding live known others retries
others-none k [] h = (refl, refl, refl)
others-none k (read_catalog i d ∷ reads) h = cc
others-none k (read_consoles i d ∷ reads) h = others-none k reads h
others-none k (read_collections i d ∷ reads) h = others-none k reads h
others-none k (read_categorization ∷ reads) h = others-none k reads h

known-suc :
    (k : ℕ) (reads : List Read)
    → known k reads ≡ true
    → (known (k + 1) reads ≡ true) × (live (k + 1) reads ≡ 0)
unfolding live known
known-suc k [] h = (refl, refl)
known-suc k (read_catalog i d ∷ reads) h = ground (arith, known-suc k reads, ==_iff i (k + 1))
known-suc k (read_consoles i d ∷ reads) h = known-suc k reads h
known-suc k (read_collections i d ∷ reads) h = known-suc k reads h
known-suc k (read_categorization ∷ reads) h = known-suc k reads h

-- Reads of other data change nothing.
pub others-IsChained :
    (k : ℕ) (retrying : Bool) (flight reads : List Read)
    → others reads ≡ true
    → IsChained k retrying flight
    → IsChained k retrying (flight ++ reads)
others-IsChained k retrying flight reads h c =
    let none_of = others-none k reads h in
    let bounded = live_retries-Bounded k reads in
    let k1 = known-++ k flight reads in
    let k2 = live-++ k flight reads in
    let k3 = retries-++ flight reads in let k4 = live_retries-++ k flight reads in ground arith

-- A new read of the catalog is the only latest one, and a retry where none is awaited starts the
-- chain, or goes on with it.
pub begin-IsChained :
    (k delay : ℕ) (flight : List Read)
    → IsChained k false flight
    → IsChained (k + 1) (ltb 0 delay) (flight ++ read_catalog (k + 1) delay ∷ [])
unfolding live known retries live_retries
begin-IsChained k delay flight c =
    let newer = known-suc k flight c.0 in
    let new = read_catalog (k + 1) delay ∷ [] in
    let bounded = live_retries-Bounded (k + 1) flight in
    let k1 = known-++ (k + 1) flight new in
    let k2 = live-++ (k + 1) flight new in
    let k3 = retries-++ flight new in
    let k4 = live_retries-++ (k + 1) flight new in ground (arith, ==_iff (k + 1) (k + 1))

-- An answer takes its read out: a read that is not the latest is no retry, and with the latest none
-- is left.
pub remove-IsChained :
    (k : ℕ) (retrying : Bool) (r : Read) (before after : List Read)
    → IsChained k retrying (before ++ r ∷ after)
    → ((is_live k r ≡ false) → IsChained k retrying (before ++ after))
      × ((is_live k r ≡ true) → IsChained k false (before ++ after))
unfolding live known retries live_retries
remove-IsChained k retrying r before after c =
    let b1 = live_retries-Bounded k before in
    let b2 = live_retries-Bounded k after in
    let k1 = known-++ k before (r ∷ after) in
    let k2 = live-++ k before (r ∷ after) in
    let k3 = retries-++ before (r ∷ after) in
    let k4 = live_retries-++ k before (r ∷ after) in
    let j1 = known-++ k before after in
    let j2 = live-++ k before after in
    let j3 = retries-++ before after in
    let j4 = live_retries-++ k before after in (λ h. ground arith, λ h. ground arith)

-- An answer of another read.
pub other-IsChained :
    (k : ℕ) (retrying : Bool) (r : Read) (before after : List Read)
    → is_catalog r ≡ false
    → IsChained k retrying (before ++ r ∷ after)
    → IsChained k retrying (before ++ after)
other-IsChained k retrying (read_catalog i d) before after h c = cc
other-IsChained k retrying (read_consoles i d) before after h c =
    (remove-IsChained k retrying (read_consoles i d) before after c).0 refl
other-IsChained k retrying (read_collections i d) before after h c =
    (remove-IsChained k retrying (read_collections i d) before after c).0 refl
other-IsChained k retrying read_categorization before after h c =
    (remove-IsChained k retrying read_categorization before after c).0 refl
