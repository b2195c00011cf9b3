-- ===== src/Frontend/Console/Tests.antt =====
-- Runs of the cache of console pages
-- (services/hearthdeck-frontend/src/screens/library/console.rs).
use hearthdeck.Prelude.{
  ◌≤◌, ◌≡◌, ◌⊎◌, refl, max, true, false, none, some, [], ◌∷◌, String, lookup, insert, length, arith,
}
use hearthdeck.Prelude.Int.{pos}
use hearthdeck.Frontend.Pages.{ConsoleScope, scope_eq, plain, Page}
use hearthdeck.Frontend.Console.{
  ConsoleScopes, loading, requested, begin, apply, ensure, touch, evict, evict_on, narrowed,
  inflight, next_prefetch, hand_out,
}
use hearthdeck.Frontend.Console.Evict.{any_leaves, evict-Bounded}
use hearthdeck.Frontend.Console.Replies.{begin-apply, next_prefetch-Bounded}

abbrev empty : ConsoleScopes String String
empty = record { scopes = []; prefetch = []; clock = 0; generation = 0; source = 0 }

abbrev snes : ConsoleScope
snes = plain (some (pos 7))

abbrev zelda : ConsoleScope
zelda = record snes { search = "zelda" }

abbrev first_page : Page String String
first_page = record { entries = "romm:42" ∷ []; versions = []; total = 3; offset = 0 }

asked : (ensure zelda empty).1 ≡ requested 1
unfolding ensure begin touch lookup insert evict_on narrowed
asked = refl

asked_again : (ensure zelda (ensure zelda empty).0).1 ≡ loading
unfolding ensure begin touch lookup insert evict_on narrowed
asked_again = refl

answered : (apply zelda 1 first_page (begin zelda 0 empty).0).1 ≡ true
unfolding apply begin touch lookup insert evict_on narrowed
answered = refl

begun_once : 1 ≤ (begin zelda 0 empty).0.generation
unfolding begin touch
begun_once = omega arith

begin-apply_example :
    ((apply zelda 1 first_page (begin zelda 0 (begin zelda 0 empty).0).0).1 ≡ false)
    × (lookup zelda (apply zelda 1 first_page (begin zelda 0 (begin zelda 0 empty).0).0).0.scopes
        ≡ lookup zelda (begin zelda 0 (begin zelda 0 empty).0).0.scopes)
begin-apply_example = begin-apply zelda (begin zelda 0 empty).0 1 first_page begun_once

evict-Bounded_example :
    (narrowed (evict (begin zelda 0 empty).0.scopes) ≤ 8)
    ⊎ (any_leaves (evict (begin zelda 0 empty).0.scopes) ≡ false)
evict-Bounded_example = evict-Bounded (begin zelda 0 empty).0.scopes

abbrev queued : ConsoleScopes String String
queued = record empty {
  prefetch = plain none ∷ snes ∷ plain (some (pos 8)) ∷ plain (some (pos 9)) ∷ [];
}

three_handed_out : length (next_prefetch queued).1 ≡ 3
unfolding hand_out inflight begin touch lookup insert evict_on narrowed
three_handed_out = refl

next_prefetch-Bounded_example :
    inflight (next_prefetch queued).0.scopes ≤ max 3 (inflight queued.scopes)
next_prefetch-Bounded_example = next_prefetch-Bounded queued
