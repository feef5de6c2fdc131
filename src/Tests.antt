-- ===== src/Tests.antt =====
-- Concrete environments, surfaces and contexts on which the operations run.
mod Program
mod Sessions
mod Surfaces
mod Buffers
mod Consoles
mod Passwords
mod Fingerprints
mod Port
use kirilock.Base.{
  ℕ, zero, suc, ◌<◌, ◌≡◌, refl, inr, ℤ, pos, Bool, true, false, Option, none, some, List, [], ◌∷◌,
  arith,
}
use kirilock.Platform.{
  Env, World, Weight, ReturnsInts, Call, Event, global, output_interface, compositor_interface,
  shm_interface, lock_manager_interface, wl_display_roundtrip, wl_display_dispatch, locked, Polled,
  whole,
}
use kirilock.Surface.{Surface, zeroed}
use kirilock.Surface.Invariant.{Inv}
use kirilock.Lock.{Context}
use kirilock.Lock.Dispatch.{Settled, AllPlain}
use kirilock.Lock.Announce.{Announces, Once, unseen}
use kirilock.Render.{Engine}

-- Every resource counts once.
abbrev one : Weight
one r = 1

abbrev start : World
start = record { tick = 0; log = [] }

abbrev hangup : Polled
hangup = record { fd = 4; epollin = true; epollhup = true; epollerr = false }

-- The n-th call succeeds with the handle n; `events` is what a call delivers.
abbrev pub answering : (Call → List Event) → Env
answering events = record {
  pointer = λ n c. some n;
  object = λ n c. n;
  number = λ n c. pos 4;
  clock = λ n. some (n, 0);
  polled = λ n i. hangup;
  wakes = λ n. true;
  le_double = λ a b. true;
  events = λ n c. events c;
}

abbrev pub announcements : Call → List Event
announcements (wl_display_roundtrip d) =
    global 1 10 compositor_interface
    ∷ global 1 11 shm_interface
    ∷ global 1 12 lock_manager_interface
    ∷ global 1 13 output_interface
    ∷ []
announcements _ = []

abbrev pub confirmation : Call → List Event
confirmation (wl_display_dispatch d) = locked ∷ []
confirmation _ = []

-- The environment of the initialisation, and the one after it.
abbrev opening : Env
opening = answering announcements

abbrev locking : Env
locking = answering confirmation

opening-ReturnsInts : ReturnsInts opening
opening-ReturnsInts n c = omega arith

locking-ReturnsInts : ReturnsInts locking
locking-ReturnsInts n c = omega arith

announcements-Once : (c : Call) → Once unseen (announcements c)
announcements-Once (wl_display_roundtrip d) = (refl, (refl, (refl, (refl, tt))))
announcements-Once _ = tt

opening-Announces : Announces opening
opening-Announces n c = announcements-Once c

confirmation-AllPlain : (c : Call) → AllPlain (confirmation c)
confirmation-AllPlain (wl_display_dispatch d) = (tt, tt)
confirmation-AllPlain _ = tt

locking-Settled : Settled locking
locking-Settled n c = confirmation-AllPlain c

abbrev engine : Engine
engine = record {
  address = 50;
  baked_surface = some 51;
  baked_pattern = some 52;
  cached_scale = 1;
  baked_dim = pos 256;
  pulse_frequency = whole 2;
}

-- A configured surface without a picture.
abbrev shown : Surface
shown = record {
  address = 20;
  global_name = 13;
  wl_output = some 21;
  wl_surface = some 22;
  ext_lock_surface = some 23;
  frame_callback = none;
  buffers = λ i. zeroed;
  current_buffer = 0;
  width = 640;
  height = 480;
  scale = pos 1;
  configured = true;
  frame_pending = false;
  dirty = true;
  engine = some engine;
  start_time_ns = 0;
  last_frame_time_ns = 0;
}

shown-Inv : Inv shown
shown-Inv = record {
  role = refl;
  pending = refl;
  scaled = refl;
  ring = omega arith;
  has_role = inr refl;
  first = inr (refl, refl);
  second = inr (refl, refl);
  third = inr (refl, refl);
}

-- A context that is ready to lock the session, and one that has locked it.
abbrev ready : Context
ready = record {
  display = some 0;
  registry = some 1;
  compositor = some 2;
  shm = some 3;
  lock_manager = some 4;
  lock = none;
  surfaces = shown ∷ [];
  is_locked = false;
  is_finished = false;
  failed = false;
}

abbrev held : Context
held = record ready { lock = some 5; is_locked = true }
