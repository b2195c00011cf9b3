-- ===== src/Input/Broker/Tests.antt =====
-- Runs of the broker on a small platform (services/hearthdeck-input/src/broker.rs).
use hearthdeck.Prelude.{
  ℕ, zero, suc, ◌≡◌, refl, Bool, true, false, Option, none, some, List, [], ◌∷◌, ◌++◌, After,
  Returns,
}
use hearthdeck.Input.{confirm, action_eq}
use hearthdeck.Prelude.Int.{pos}
use hearthdeck.Input.Ownership
use hearthdeck.Input.Mapper
use hearthdeck.Input.Mapper.{OutputEvent}
use hearthdeck.Input.Protocol
use hearthdeck.Input.Protocol.{Role, Delivery, Hello, InputProfile, Event}
use hearthdeck.Input.Broker.{
  Platform, Pad, Client, Broker, grab_all, find_id, reconcile, connect, deliver,
}
use hearthdeck.Input.Broker.Grab.{AllOrNothing, grab_all-AllOrNothing}
use hearthdeck.Input.Broker.Owners.{Same, Settled, reconcile-After}
use hearthdeck.Input.Broker.Capture.{IsGuarded, deliver-IsGuarded}
use hearthdeck.Input.Broker.Connect.{connect-IsGuarded}
use hearthdeck.Input.Axis.{btn_mode}
use hearthdeck.Input.Broker.Poll.{Fetched, key_event, events, gone, collect}
use hearthdeck.Input.Broker.Polled.{Watched}
use hearthdeck.Input.Broker.Gone.{staying, AllForgotten}
use hearthdeck.Input.Broker.Unplugged.{collect-Unplugged}
use hearthdeck.Input.Broker.Total.{IsReliable, connect-Returns}

-- A device is whether another process has it, and whether it is grabbed here.
abbrev grab_device : Bool × Bool → (Bool × Bool) × Bool
grab_device (true, grabbed) = ((true, grabbed), false)
grab_device (false, grabbed) = ((false, true), true)

abbrev ungrab_device : Bool × Bool → (Bool × Bool) × Bool
ungrab_device (busy, grabbed) = ((busy, false), true)

grab_device_taken : (d : Bool × Bool) → (grab_device d).1 ≡ true → (grab_device d).0.1 ≡ true
grab_device_taken (true, grabbed) h = cc
grab_device_taken (false, grabbed) h = refl

grab_device_refused : (d : Bool × Bool) → (grab_device d).1 ≡ false → (grab_device d).0.1 ≡ d.1
grab_device_refused (true, grabbed) h = refl
grab_device_refused (false, grabbed) h = cc

-- A channel is the room that is left in it.
abbrev send_in : ℕ → Event → Option ℕ
send_in zero event = none
send_in (suc room) event = some room

abbrev platform : Platform
platform = record {
  Device = Bool × Bool;
  is_grabbed = λ d. d.1;
  grab = grab_device;
  ungrab = ungrab_device;
  grab_taken = grab_device_taken;
  grab_refused = grab_device_refused;
  ungrab_done = λ d h. refl;
  Channel = ℕ;
  try_send = send_in;
  Output = List OutputEvent;
  emit = λ o events. some (o ++ events);
}

platform-IsReliable : IsReliable platform
platform-IsReliable = record { releases = λ d. refl; emits = λ o events. tt }

abbrev pad : ℕ → Bool → Pad platform
pad id busy = record {
  id = id;
  path = "/dev/input/event0";
  device = (busy, false);
  ranges = λ code. none;
}

abbrev shell : Client platform
shell = record {
  id = 1;
  hello = record { version = 1; role = Role.frontend; delivery = Delivery.frontend };
  events = 1;
}

abbrev quick_menu : Client platform
quick_menu = record {
  id = 2;
  hello = record { version = 1; role = Role.overlay; delivery = Delivery.overlay };
  events = 3;
}

-- The shell is connected, and one of two pads is held by another process.
abbrev broker : Broker platform
broker = record {
  pads = pad 1 false ∷ pad 2 true ∷ [];
  clients = shell ∷ [];
  state = Ownership.default;
  mapper = Mapper.default;
  output = [];
  mode = record { profile = InputProfile.desktop; retro_osk = false };
  session = record {
    mode = record { profile = InputProfile.desktop; retro_osk = false };
    app_ids = [];
  };
  session_at = 0;
  focused = none;
  capture = none;
  keyboard = false;
  next_pad = 3;
  now = 100;
}

connect-IsGuarded_example : After (IsGuarded platform) (connect platform broker quick_menu)
unfolding Protocol.valid find_id
connect-IsGuarded_example =
    connect-IsGuarded platform broker quick_menu (refl, (refl, tt)) refl refl

connect-Returns_example : Returns (connect platform broker quick_menu)
connect-Returns_example = connect-Returns platform platform-IsReliable broker quick_menu

grab_all-AllOrNothing_example : AllOrNothing platform (grab_all platform broker.pads)
grab_all-AllOrNothing_example = grab_all-AllOrNothing platform broker.pads (refl, (refl, tt))

reconcile-After_example :
    After (λ b'. Same platform broker b' × Settled platform b') (reconcile platform broker)
reconcile-After_example = reconcile-After platform broker

deliver-IsGuarded_example : After (IsGuarded platform) (deliver platform broker confirm)
deliver-IsGuarded_example = deliver-IsGuarded platform broker confirm (refl, (refl, tt))

-- The first pad presses guide, and the second one is unplugged.
abbrev fetched : ℕ → Fetched
fetched zero = gone
fetched (suc zero) = events (key_event btn_mode (pos 1) ∷ [])
fetched (suc (suc _)) = gone

collect-Unplugged_example :
    After
      (λ r.
        (r.0.pads ≡ staying platform fetched broker.pads)
        × AllForgotten platform fetched broker.pads r.0
        × Watched platform broker r.0)
      (collect platform broker fetched)
collect-Unplugged_example = collect-Unplugged platform broker fetched (refl, (refl, tt))
