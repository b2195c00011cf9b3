-- ===== src/Frontend/Grid/Clamp.antt =====
-- A clamped set of cursors is on things that exist
-- (services/hearthdeck-frontend/src/screens/library/focus.rs, `clamp`, `confirm`, `focused_tile`).
use hearthdeck.Prelude.{
  ℕ, ◌-◌, ◌≤◌, ◌<◌, ◌≡◌, ◌≢◌, refl, ◌⊎◌, ◌↔◌, true, Option, none, some, arith, sym, ap, ◌∙◌, min,
}
use hearthdeck.Frontend.Grid.{
  Layout, Cursors, confirm_tile, nothing, ring_len, ring_at, clamp, clamp_ring, ring_stop, confirm,
  focused_tile, confirm_at, confirm_content, Chrome,
}

-- The ring has a stop at an index exactly when the index is below its length.
pub ring_at-ring_len : (index : ℕ) (l : Layout) → (ring_at index l ≢ none) ↔ (index < ring_len l)
unfolding ring_at ring_len
ring_at-ring_len index l = (λ h. ground arith, λ h. ground arith)

-- The ring is never empty.
pub ring_len_positive : (l : Layout) → 0 < ring_len l
unfolding ring_len
ring_len_positive l = ground arith

clamp_ring-none :
    (ring : Option ℕ) (l : Layout) → ring_stop (clamp_ring ring (ring_len l)) l ≡ none → ring ≡ none
clamp_ring-none none l h = refl
clamp_ring-none (some index) l h =
    let positive = ring_len_positive l in
    let stop : clamp_ring (some index) (ring_len l) ≡ some (min index (ring_len l - 1)) =
      ground arith in
    let below : min index (ring_len l - 1) < ring_len l = omega arith in
    let taken : ring_at (min index (ring_len l - 1)) l ≡ none =
      sym (ap (λ r. ring_stop r l) stop) ∙ h in
    absurd ((ring_at-ring_len (min index (ring_len l - 1)) l).1 below taken)

confirm_at-nothing :
    (o : Option Chrome) (c : Cursors) (l : Layout)
    → confirm_at o c l ≡ nothing
    → (o ≡ none) × (confirm_content c l ≡ nothing)
confirm_at-nothing none c l h = (refl, h)
confirm_at-nothing (some stop) c l h = cc

confirm_content-nothing :
    (c : Cursors) (l : Layout) → confirm_content c l ≡ nothing → l.tiles ≤ c.tile
confirm_content-nothing c l h = ground arith

-- Confirming after a clamp does nothing only where there is nothing: the ring was on no stop and
-- there are no tiles.
pub confirm-clamp :
    (c : Cursors) (l : Layout) → confirm (clamp c l) l ≡ nothing → (c.ring ≡ none) × (l.tiles ≡ 0)
unfolding confirm clamp
confirm-clamp c l h =
    let e = confirm_at-nothing (ring_stop (clamp_ring c.ring (ring_len l)) l) (clamp c l) l h in
    let past = confirm_content-nothing (clamp c l) l e.1 in
    (clamp_ring-none c.ring l e.0, omega (arith, past))

-- The tile that is drawn as focused is the tile that confirming launches, unless the filter drawer
-- is open with rows.
pub focused_tile-confirm :
    (c : Cursors) (l : Layout) (t : ℕ)
    → focused_tile c l ≡ some t
    → (confirm c l ≡ confirm_tile t) ⊎ ((l.drawer_open ≡ true) × (0 < l.facets))
unfolding focused_tile confirm
focused_tile-confirm c l t h = ground arith

-- Clamping twice is clamping once.
pub clamp_idem : (c : Cursors) (l : Layout) → clamp (clamp c l) l ≡ clamp c l
unfolding clamp
clamp_idem c l = ground arith
