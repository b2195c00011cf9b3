-- ===== src/Frontend/Launch.antt =====
-- The progress of one launch (services/hearthdeck-frontend/src/launch_state.rs). `&mut self` becomes
-- the returned state.
use Prim.Native.String.{String}
use hearthdeck.Prelude.{
  ℕ, suc, ◌+◌, ◌≤◌, ◌≡◌, refl, ◌⊎◌, ◌↔◌, inl, inr, Bool, true, false, Option, none, some, List, [],
  ◌∷◌, arith,
}

pub data LaunchState : Type 0 where
  idle : LaunchState
  launching : String → LaunchState
  failed : String → String → LaunchState

pub data Event : Type 0 where
  start : String → Event
  accepted : Event
  fails : String → Event
  dismiss : Event

pub data Effect : Type 0 where
  nothing launch delay_dismiss : Effect

pub data Overlay : Type 0 where
  progress : String → Overlay
  failure : String → String → Overlay

unfoldable pub update : LaunchState → Event → LaunchState × Effect
update idle (start title) = (launching title, launch)
update s (start title) = (s, nothing)
update (launching title) accepted = (launching title, delay_dismiss)
update s accepted = (s, nothing)
update (launching title) (fails error) = (failed title error, nothing)
update s (fails error) = (s, nothing)
update s dismiss = (idle, nothing)

unfoldable pub is_visible : LaunchState → Bool
is_visible idle = false
is_visible _ = true

unfoldable pub overlay : LaunchState → Option Overlay
overlay idle = none
overlay (launching title) = some (progress title)
overlay (failed title error) = some (failure title error)

unfoldable pub run : LaunchState → List Event → LaunchState × List Effect
run s [] = (s, [])
run s (e ∷ es) =
    let (s', effect) = update s e in let (final, effects) = run s' es in (final, effect ∷ effects)

-- The title that the launch's layer shows.
abbrev pub shown_title : Option Overlay → Option String
shown_title none = none
shown_title (some (progress title)) = some title
shown_title (some (failure title error)) = some title

-- The layer shows nothing, or the title of some start of the history.
abbrev pub StartedIn : Option String → List Event → Type 0
StartedIn none es = Unit {0}
StartedIn (some title) [] = ⊥
StartedIn (some title) (start other ∷ es) = (other ≡ title) ⊎ StartedIn (some title) es
StartedIn (some title) (_ ∷ es) = StartedIn (some title) es

-- A title, and the histories that lead to it from an older one.
abbrev From : Option String → Option String → List Event → Type 0
From old new es = (new ≡ old) ⊎ StartedIn new es

From-cons :
    (s : LaunchState) (e : Event) (new : Option String) (es : List Event)
    → From (shown_title (overlay (update s e).0)) new es
    → From (shown_title (overlay s)) new (e ∷ es)
unfolding update overlay
From-cons s e none es h = inr tt
From-cons idle (start t) (some new) es h = ground arith
From-cons s e (some new) es h = ground arith

titles-From :
    (s : LaunchState) (es : List Event)
    → From (shown_title (overlay s)) (shown_title (overlay (run s es).0)) es
unfolding run
titles-From s [] = inl refl
titles-From s (e ∷ es) = From-cons s e _ es (titles-From (update s e).0 es)

-- Whatever happens after the idle state, the layer over the page shows no title, or one that a start
-- event of the history named.
pub run-title : (es : List Event) → StartedIn (shown_title (overlay (run idle es).0)) es
unfolding overlay
run-title es = elim (titles-From idle es) [ inl e ↦ rw e tt | inr h ↦ h ]

abbrev pub launches : List Effect → ℕ
launches [] = 0
launches (launch ∷ effects) = suc (launches effects)
launches (_ ∷ effects) = launches effects

abbrev pub dismissals : List Event → ℕ
dismissals [] = 0
dismissals (dismiss ∷ es) = suc (dismissals es)
dismissals (_ ∷ es) = dismissals es

abbrev busy : LaunchState → ℕ
busy idle = 0
busy _ = 1

launches-step :
    (s : LaunchState) (e : Event) (es : List Event) (effects : List Effect)
    → launches effects + busy (update s e).0 ≤ suc (dismissals es)
    → launches ((update s e).1 ∷ effects) + busy s ≤ suc (dismissals (e ∷ es))
unfolding update
launches-step idle e es effects h = ground arith
launches-step s e es effects h = ground arith

launches-run :
    (s : LaunchState) (es : List Event) → launches (run s es).1 + busy s ≤ suc (dismissals es)
unfolding run
launches-run idle [] = omega arith
launches-run s [] = omega arith
launches-run s (e ∷ es) = launches-step s e es _ (launches-run (update s e).0 es)

-- One launch at a time: in any history the launches that are asked for outnumber the dismissals by
-- at most one.
pub launches-dismissals :
    (s : LaunchState) (es : List Event) → launches (run s es).1 ≤ suc (dismissals es)
launches-dismissals s es = omega (arith, launches-run s es)

-- A page is covered exactly while the launch is visible.
pub overlay-is_visible : (s : LaunchState) → (overlay s ≡ none) ↔ (is_visible s ≡ false)
unfolding overlay is_visible
overlay-is_visible idle = (λ _. refl, λ _. refl)
overlay-is_visible s = (λ h. cc, λ h. cc)
