-- ===== src/Lib.antt =====
-- kirilock is a Wayland session locker. The program connects to the compositor, binds the globals
-- it needs and every output (kl_context_init), asks for the session lock and gives each output a lock
-- surface (kl_context_lock_session), draws an animated picture on each surface frame by frame from
-- three shared-memory buffers, runs an event loop for five seconds, and then unlocks the session and
-- destroys all (kl_context_unlock_session, kl_context_destroy).
--
-- Parts and files:
-- Base - the libraries' names passed on, Boolean tests and signed integers (Base/Tests, Base/Int).
-- Platform - the calls of libc, cairo and libwayland and the events (Platform/Calls), and which of
--   them make and give back which resource (Platform/Ledger).
-- Buffer - src/buffer.c and include/kirilock/buffer.h.
-- Render - src/render.c.
-- Surface - include/kirilock/surface.h and the life and lock role of a surface in src/surface.c.
-- Frame - the drawing of frames and the listeners of src/surface.c, and kl_buffer_handle_release of
--   src/buffer.c.
-- Lock - include/kirilock/lock.h, the registry and lock listeners of src/lock.c, and how events reach
--   the listeners of surfaces and buffers.
-- Session - kl_context_init, kl_context_lock_session, kl_context_unlock_session and
--   kl_context_destroy of src/lock.c.
-- Main - src/main.c.
-- Auth - the authentication libraries of auth.back, which the program above does not use yet.
-- Auth/Console - the line of input in the loop of auth.back/example/main.c.
-- Auth/Password - the threads of auth.back/src/password.c; Auth/Pam - its child process and the PAM
--   conversation in it.
-- Auth/Fingerprint - the threads of auth.back/src/fingerprint.c.
-- Auth/Context - the init functions of both and the end of their deletes; Auth/Handlers - the
--   functions that set handlers.
-- Auth/Terminal - the terminal settings of auth.back/example/main.c; Auth/Clear - secure_clear.
-- Auth/Example - the coordinator and main of auth.back/example/main.c; Auth/Example/Joint - both
--   libraries at work with the coordinator.
-- Libs - the C++ port under libs/auth, which the program does not use either: Libs/Password and
--   Libs/Fingerprint - the threads of its classes; Libs/Pam - the child of src/password.cpp;
--   Libs/Life - constructor and destructor of src/fingerprint.cpp, and main of example/main.cpp;
--   Libs/Console - the loop of that main; Libs/Example - its coordinator with both objects;
--   Libs/Handlers - set_handlers; Libs/Client - set_user_data; Libs/Terminal - the terminal of that
--   example. Extended in Libs/Fingerprint is a step relation: the steps of a
--   context of the C library and the join in `start`, which the C library lacks.
-- Tests - concrete input on which the theorems are applied.
-- The children of a module hold its theorems, named for what they prove: Balance and Account for what
-- is made and given back, Invariant and Handlers for the invariant of surfaces.
--
-- How the code is read. A function of the code becomes a function of the same name. It takes the
-- struct that its pointer argument points to and returns it as it leaves it; such a pointer is never
-- NULL, so the guards for that are left out. Where the code tests the result of a call, the rest of
-- the function is a helper by clauses on that result. A computation (`M`) is given an environment and
-- the log of the calls made so far; the environment answers the n-th call arbitrarily: pointers that
-- may be NULL, numbers, the clock, the entries of epoll_wait and the events that a call delivers. All
-- code that is not in the repository is such a call, and nothing is assumed of it but what a theorem
-- names: that an int has 32 bits, how often globals are announced, and what tcgetattr and tcsetattr do
-- on a terminal. An event for an object that
-- the client has destroyed is dropped, as libwayland does. The ledger counts resources by an arbitrary
-- weight: for the weight that is 1 at one resource and 0 elsewhere, `Balance` says that what is held
-- changes by how often that resource was made less how often it was given back. It also says that the
-- number of calls does not go down, by which the time of the event loop is measured.
--
-- The authentication libraries have threads. There a system holds the fields of the context with the
-- place where each thread stands in its function; each access to an atomic field, to the copy of the
-- password or to the thread, and each call of a handler, is one step of one thread. A schedule (a list
-- of `Choice`) says which thread goes on and what the outside answers it (fork, waitpid, strdup,
-- pthread_create, the bus), so a run over an arbitrary schedule is an arbitrary interleaving. One
-- thread, the owner, calls verify or start and delete; any thread may call stop, which is how a handler
-- of the example stops a library too. Reports list what the handlers were called with, the last first.
-- `waitpid` may fail: then the C library judges an arbitrary `status`, and the port one that is 0.
-- The steps have no loop inside, so they need no fuel; a loop of the code is a way back to an earlier
-- place.
--
-- Integers are native numbers with the wrap-around of the code written out; floating-point values are
-- kept as the expressions that compute them. The loops over arrays and lists are structural. Three
-- loops may go on forever and have fuel, one unit for each round: the wait for the compositor in
-- kl_context_lock_session (`waits`), and the event loop of main with the read preparation inside it
-- (`rounds`, `tries`). When fuel is spent the result says so, and the theorems cover that
-- result with what is held then, so no amount of fuel is assumed. `waits` is enough as soon as the
-- compositor answers within that many calls of wl_display_dispatch (Session/Answer). `rounds` and
-- `tries` are enough with one unit for each call made before the 5 seconds are over and no event is
-- left to dispatch, if epoll_wait always returns (Main/Return). It has no time limit, so the
-- environment says whether a call of it ever returns; the program is still running if it does not.
-- Every other call is taken to return.
--
-- Not modelled: messages to the terminal; `verify` of the C++ port with an empty password;
-- kl_cleanup_debug_resources of src/main.c, which resets cairo's debug state; the listeners of an
-- output that do nothing; the functions of the C libraries that only read a field, and is_running of
-- the C++ port; include/protocols, which wayland-scanner generates.
mod Base
pub mod Platform
pub mod Buffer
pub mod Render
pub mod Surface
pub mod Frame
pub mod Lock
pub mod Session
pub mod Main
pub mod Auth
pub mod Libs
mod Tests
