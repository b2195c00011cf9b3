-- ===== src/Input/Broker.antt =====
-- The input broker: clients, capture of the controllers, and who owns them
-- (services/hearthdeck-input/src/broker.rs). A fatal error, the code's `?`, is `none`. Devices, the
-- clients' channels and the virtual output are a parameter, `Platform`. `now` is the clock at the
-- call, in milliseconds; the keyboard's child process is whether there is one.
pub mod Grab
pub mod Capture
pub mod Owners
pub mod Roles
pub mod Connect
pub mod Total
pub mod Poll
pub mod Polled
pub mod Gone
pub mod Unplugged
mod Tests
use Prim.Native.String.{String}
use hearthdeck.Prelude.{
  ℕ, ◌+◌, ◌-◌, ◌≡◌, Bool, true, false, not, ◌&&◌, ◌||◌, if◌then◌else◌, ltb, ◌==◌, Option, none,
  some, List, [], ◌∷◌, ◌++◌, is_some_and, ◌>>=◌, ◌=?◌,
}
use hearthdeck.Input.{Action, toggle_overlay, action_eq}
use hearthdeck.Input.Ownership
use hearthdeck.Input.Ownership.{Owner, Ownership, Signal, act, summon_keyboard, same_owner}
use hearthdeck.Input.Mapper
use hearthdeck.Input.Mapper.{Mapper, OutputEvent}
use hearthdeck.Input.Axis.{AxisCode, AxisRange}
use hearthdeck.Input.Protocol
use hearthdeck.Input.Protocol.{
  Role, Delivery, Hello, InputProfile, InputMode, SessionContext, Event, same_role, is_overlay,
  is_text_entry, matches_focus,
}

-- What the broker uses of the kernel and of the async runtime. A grab or release that fails is a
-- `false`; a channel that is full or closed refuses an event; the output may fail.
pub record Platform : Type 1 where
  pub Device : Type 0
  pub is_grabbed : Device → Bool
  pub grab : Device → Device × Bool
  pub ungrab : Device → Device × Bool
  pub grab_taken : (d : Device) → (grab d).1 ≡ true → is_grabbed (grab d).0 ≡ true
  pub grab_refused : (d : Device) → (grab d).1 ≡ false → is_grabbed (grab d).0 ≡ is_grabbed d
  pub ungrab_done : (d : Device) → (ungrab d).1 ≡ true → is_grabbed (ungrab d).0 ≡ false
  pub Channel : Type 0
  pub try_send : Channel → Event → Option Channel
  pub Output : Type 0
  pub emit : Output → List OutputEvent → Option Output

pub record Pad (w : Platform) : Type 0 where
  pub id : ℕ
  pub path : String
  pub device : w.Device
  pub ranges : AxisCode → Option AxisRange

pub record Client (w : Platform) : Type 0 where
  pub id : ℕ
  pub hello : Hello
  pub events : w.Channel

pub record Broker (w : Platform) : Type 0 where
  pub pads : List (Pad w)
  pub clients : List (Client w)
  pub state : Ownership
  pub mapper : Mapper
  pub output : w.Output
  pub mode : InputMode
  pub session : SessionContext
  pub session_at : ℕ
  pub focused : Option String
  pub capture : Option ℕ
  pub keyboard : Bool
  pub next_pad : ℕ
  pub now : ℕ

module _ (w : Platform) where
  -- `grab_all`: either every device is grabbed, or the first refusal rolls back those before it.
  pub data Grabbed : Type 0 where
    fatal : Grabbed
    denied : List (Pad w) → Grabbed
    granted : List (Pad w) → Grabbed

  -- The devices released in order; `none` if one cannot be.
  unfoldable pub ungrab_all : List (Pad w) → Option (List (Pad w))
  ungrab_all [] = some []
  ungrab_all (p ∷ pads) =
      let (d, released) = w.ungrab p.device in
      let rest = ungrab_all pads in
      if released then rest >>= (λ ps. some (record p { device = d } ∷ ps)) else none

  abbrev pub rolled_back : Option (List (Pad w)) → List (Pad w) → Grabbed
  rolled_back none rest = fatal
  rolled_back (some before) rest = denied (before ++ rest)

  -- `before` is `devices[..index]`, in order.
  unfoldable pub grab_from : List (Pad w) → List (Pad w) → Grabbed
  grab_from before [] = granted before
  grab_from before (p ∷ pads) =
      let (d, taken) = w.grab p.device in
      let p' = record p { device = d } in
      let rest = grab_from (before ++ p' ∷ []) pads in
      if taken then rest else rolled_back (ungrab_all before) (p' ∷ pads)

  unfoldable pub grab_all : List (Pad w) → Grabbed
  grab_all = grab_from []

  unfoldable pub find_id : ℕ → List (Client w) → Option (Client w)
  find_id id [] = none
  find_id id (c ∷ clients) = if c.id == id then some c else find_id id clients

  unfoldable pub find_role : Role → List (Client w) → Option (Client w)
  find_role role [] = none
  find_role role (c ∷ clients) =
      if same_role c.hello.role role then some c else find_role role clients

  unfoldable pub retain_not : ℕ → List (Client w) → List (Client w)
  retain_not id [] = []
  retain_not id (c ∷ clients) =
      if not (c.id == id) then c ∷ retain_not id clients else retain_not id clients

  -- `linux::emit`, which does not write where there are no events.
  abbrev pub emit_events : w.Output → List OutputEvent → Option w.Output
  emit_events output [] = some output
  emit_events output (e ∷ es) = w.emit output (e ∷ es)

  unfoldable pub emit_mapped : Broker w → Mapper × List OutputEvent → Option (Broker w)
  emit_mapped b (m, events) = do
    output ← emit_events b.output events
    some (record b { mapper = m; output = output })

  unfoldable pub session_has_focus : Broker w → Bool
  session_has_focus b = ltb (b.now - b.session_at) 5000 && matches_focus b.session b.focused

  abbrev is_desktop_profile : InputProfile → Bool
  is_desktop_profile InputProfile.desktop = true
  is_desktop_profile InputProfile.native = false

  -- The inner `match frontend`, with what its guard computes.
  abbrev pub delivers : Option Delivery → Bool → Owner
  delivers (some Delivery.frontend) mapped = Owner.frontend
  delivers (some Delivery.text_entry) mapped = Owner.text_entry
  delivers (some Delivery.handoff) mapped = Owner.observe
  delivers _ mapped = if mapped then Owner.desktop else Owner.observe

  abbrev delivery_of : Option (Client w) → Option Delivery
  delivery_of none = none
  delivery_of (some c) = some c.hello.delivery

  abbrev pub is_some {ℓ} : {A : Type ℓ} → Option A → Bool
  is_some o = is_some_and o (λ _. true)

  unfoldable pub owner_of : Broker w → Owner
  owner_of b =
      if b.keyboard
      then Owner.keyboard
      else if is_some b.capture
      then Owner.overlay
      else delivers (delivery_of (find_role Role.frontend b.clients))
          (is_desktop_profile b.mode.profile && session_has_focus b)

  -- The `if owner != self.state.owner` of `reconcile`.
  unfoldable pub hand_over : Broker w → Owner → Option (Broker w)
  hand_over b owner = if same_owner owner b.state.owner then some b else (do
    b' ← emit_mapped b (Mapper.set_active b.mapper false)
    some (record b' { state = Ownership.set_owner b'.state owner }))

  unfoldable pub reconcile : Broker w → Option (Broker w)
  reconcile b = do
    b' ← hand_over b (owner_of b)
    emit_mapped b' (Mapper.set_active b'.mapper (same_owner (owner_of b) Owner.desktop))

  unfoldable pub release : Broker w → Option (Broker w)
  release b =
      if is_some b.capture
      then (do pads ← ungrab_all b.pads; some (record b { pads = pads; capture = none }))
      else some b

  abbrev pub captures : Option ℕ → ℕ → Bool
  captures capture id = is_some_and capture (λ owner. owner == id)

  unfoldable pub disconnect : Broker w → ℕ → Option (Broker w)
  disconnect b id = do
    let left = record b { clients = retain_not id b.clients }
    b' ← (if captures left.capture id then release left else some left)
    reconcile b'

  -- The client's channel after a send.
  unfoldable pub store : ℕ → w.Channel → List (Client w) → List (Client w)
  store id channel [] = []
  store id channel (c ∷ clients) =
      if c.id == id then record c { events = channel } ∷ clients else c ∷ store id channel clients

  abbrev pub sent : Broker w → ℕ → Option w.Channel → Option (Broker w)
  sent b id none = disconnect b id
  sent b id (some channel) = some (record b { clients = store id channel b.clients })

  abbrev pub send_to : Broker w → ℕ → Event → Option (Client w) → Option (Broker w)
  send_to b id event none = some b
  send_to b id event (some c) = sent b id (w.try_send c.events event)

  unfoldable pub send : Broker w → ℕ → Event → Option (Broker w)
  send b id event = send_to b id event (find_id id b.clients)

  abbrev pub notify : Option ℕ → Broker w → Option (Broker w)
  notify none b = some b
  notify (some id) b = send b id Event.failed

  unfoldable pub revoke : Broker w → Option (Broker w)
  revoke b = do released ← release b; b' ← reconcile released; notify b.capture b'

  -- The ids of the clients with a role, and their removal one by one.
  unfoldable pub ids_of : Role → List (Client w) → List ℕ
  ids_of role [] = []
  ids_of role (c ∷ clients) =
      if same_role c.hello.role role then c.id ∷ ids_of role clients else ids_of role clients

  unfoldable pub disconnect_all : Broker w → List ℕ → Option (Broker w)
  disconnect_all b [] = some b
  disconnect_all b (id ∷ ids) = disconnect b id >>= (λ b'. disconnect_all b' ids)

  unfoldable pub any_text_entry : List (Client w) → Bool
  any_text_entry [] = false
  any_text_entry (c ∷ clients) = is_text_entry c.hello.delivery || any_text_entry clients

  -- The end of `connect`, after the capture's grab.
  abbrev pub settle : Broker w → ℕ → Grabbed → Option (Broker w)
  settle b id fatal = none
  settle b id (denied pads) = do b' ← send (record b { pads = pads }) id Event.failed; reconcile b'
  settle b id (granted pads) = do
    b' ← reconcile (record b { pads = pads; capture = some id })
    send b' id Event.ready

  -- The overlay's client takes the controllers, unless a keyboard is up.
  unfoldable pub capture_for : Broker w → ℕ → Option (Broker w)
  capture_for b id = do
    b' ← emit_mapped b (Mapper.set_active b.mapper false)
    let b'' = record b' { state = Ownership.suspend b'.state }
    let blocked = b''.keyboard || any_text_entry b''.clients
    let refused = send b'' id Event.failed
    let captured = settle b'' id (grab_all b''.pads)
    if blocked then refused else captured

  unfoldable pub register : Broker w → Client w → Option (Broker w)
  register b client =
      if is_overlay client.hello.delivery
      then capture_for b client.id
      else reconcile b >>= (λ b'. send b' client.id Event.ready)

  unfoldable pub connect : Broker w → Client w → Option (Broker w)
  connect b client = do
    b₁ ← disconnect_all b (ids_of client.hello.role b.clients)
    let b₂ = record b₁ { clients = b₁.clients ++ client ∷ [] }
    register b₂ client

  abbrev pub deliver_to : Broker w → Option (Client w) → Action → Option (Broker w)
  deliver_to b none action = some b
  deliver_to b (some c) action = send b c.id (Event.act action)

  -- `deliver` of an action; the keyboard signal is `open_keyboard`.
  unfoldable pub deliver : Broker w → Action → Option (Broker w)
  deliver b action =
      deliver_to b
        (find_role
          (if action =? toggle_overlay || is_some b.capture then Role.overlay else Role.frontend)
          b.clients)
        action
