-- ===== src/Overlay/Menu.antt =====
-- Facts about one event (services/hearthdeck-overlay/src/state.rs, `OverlayState::update`).
use hearthdeck.Prelude.{◌<◌, ◌⊎◌, ◌≡◌, Bool, true, false, arith}
use hearthdeck.Overlay.{
  busy, item_count, Event, toggle, navigate_up, navigate_down, activate, close, log_out, nothing,
  OverlayState, update,
}

-- The cursor is on an entry of the menu that is on screen; while an action is pending it is on an
-- entry of the normal menu, where a delayed hide leaves it.
abbrev pub IsValid : OverlayState → Type 0
IsValid s = ((busy s.status ≡ true) ⊎ (s.selected < item_count s.status)) × (s.selected < 3)

-- Whatever the event, the cursor stays on an entry that exists.
pub update-IsValid : (s : OverlayState) (e : Event) → IsValid s → IsValid (update s e).0
unfolding update
update-IsValid s toggle v = ground arith
update-IsValid s _ v = ground arith

-- Input that the user gives, as against the reports of the closing and log-out tasks.
abbrev pub is_input : Event → Bool
is_input toggle = true
is_input navigate_up = true
is_input navigate_down = true
is_input activate = true
is_input close = true
is_input log_out = true
is_input _ = false

-- While a close or log out is pending, input changes nothing and has no effect.
pub update-busy :
    (s : OverlayState) (e : Event)
    → busy s.status ≡ true
    → is_input e ≡ true
    → update s e ≡ (s, nothing)
unfolding update
update-busy s toggle b i = ground arith
update-busy s _ b i = ground arith

-- Up undoes down and down undoes up, in the menu on screen.
pub navigate_inverse :
    (s : OverlayState)
    → IsValid s
    → ((update (update s navigate_down).0 navigate_up).0 ≡ s)
      × ((update (update s navigate_up).0 navigate_down).0 ≡ s)
unfolding update
navigate_inverse s v = ground arith
