-- ===== src/Extension/LocalServer/Starting/Settling.antt =====
-- src/extension/localRustServer.ts, `start`: what settles its promise, and how often.
use nettprogg_vsc.Common.{
  ℕ, Text, List, [], ◌∷◌, Bool, true, false, not, ◌||◌, Option, none, some, ◌≡◌, refl, ap, ◌⊎◌, inl,
  inr, arith, is_some, get_or_else, subst,
}
use nettprogg_vsc.Extension.LineListener.{Stream, on_data, on_end}
use nettprogg_vsc.Extension.LocalServer.{Server, port}
use nettprogg_vsc.Extension.LocalServer.Announcement.{announced}
use nettprogg_vsc.Extension.LocalServer.Starting.{
  Begun, begin_on, Settlement, fulfilled, rejected, Reason, timed_out, spawn_failed, exited, Start,
  Begun, already, spawned, begin_start, Event, stdout_data, stderr_data, stdout_end, stderr_end,
  child_error, child_exit, timeout, hear, fail, on_line, on_lines, new_lines, step, run,
}

-- The promise was settled once or not at all, as the flag says, and until then the timer runs. A
-- port was stored exactly if the promise was fulfilled, and the promise was fulfilled with it. The
-- child is remembered unless the timeout has ended.
pub record IsSound (m : Start) : Type 0 where
  pub timed : m.timeout_set ≡ not m.resolved
  pub settled :
      ((m.settlements ≡ []) × (m.resolved ≡ false) × (m.server.actual_port ≡ none))
      ⊎ (((p : ℕ) × (m.settlements ≡ fulfilled p ∷ [])
            × (m.resolved ≡ true)
            × (m.server.actual_port ≡ some p))
          ⊎ ((r : Reason) × (m.settlements ≡ rejected r ∷ [])
              × (m.resolved ≡ true)
              × (m.server.actual_port ≡ none)))
  pub held : (is_some m.server.child ≡ true) ⊎ (m.settlements ≡ rejected timed_out ∷ [])

hear-IsSound : (o : Option ℕ) (m : Start) → IsSound m → IsSound (hear o m)
hear-IsSound none m h = h
hear-IsSound (some p) m h = record {
  timed = ground (arith, h.timed);
  settled = ground (arith, h.settled);
  held = ground (arith, h.settled, h.held);
}

fail-IsSound : (r : Reason) (m : Start) → IsSound m → IsSound (fail r m)
fail-IsSound r m h = record {
  timed = ground (arith, h.timed);
  settled = ground (arith, h.settled);
  held = ground (arith, h.settled, h.held);
}

on_lines-IsSound : (lines : List Text) (m : Start) → IsSound m → IsSound (on_lines lines m)
unfolding on_lines on_line
on_lines-IsSound [] m h = h
on_lines-IsSound (line ∷ lines) m h =
    on_lines-IsSound lines (on_line line m) (hear-IsSound (announced line) m h)

out-IsSound : (m : Start) (now : Stream) → IsSound m → IsSound (record m { out = now })
out-IsSound m now h = record { timed = h.timed; settled = h.settled; held = h.held }

err-IsSound : (m : Start) (now : Stream) → IsSound m → IsSound (record m { err = now })
err-IsSound m now h = record { timed = h.timed; settled = h.settled; held = h.held }

step-IsSound : (event : Event) (m : Start) → IsSound m → IsSound (step event m)
unfolding step
step-IsSound (stdout_data chunk) m h =
    on_lines-IsSound (new_lines m.out (on_data m.out chunk)) _
      (out-IsSound m (on_data m.out chunk) h)
step-IsSound (stderr_data chunk) m h =
    on_lines-IsSound (new_lines m.err (on_data m.err chunk)) _
      (err-IsSound m (on_data m.err chunk) h)
step-IsSound stdout_end m h =
    on_lines-IsSound (new_lines m.out (on_end m.out)) _ (out-IsSound m (on_end m.out) h)
step-IsSound stderr_end m h =
    on_lines-IsSound (new_lines m.err (on_end m.err)) _ (err-IsSound m (on_end m.err) h)
step-IsSound child_error m h = fail-IsSound spawn_failed m h
step-IsSound child_exit m h = fail-IsSound exited m h
step-IsSound timeout m h = record {
  timed = ground (arith, h.timed);
  settled = ground (arith, h.timed, h.settled);
  held = ground (arith, h.timed, h.settled, h.held);
}

run-IsSound_from : (events : List Event) (m : Start) → IsSound m → IsSound (run events m)
unfolding run
run-IsSound_from [] m h = h
run-IsSound_from (event ∷ events) m h =
    run-IsSound_from events (step event m) (step-IsSound event m h)

-- What a spawned `start` begins with
abbrev BeginsSound : Begun → Type 0
BeginsSound (already p) = Unit
BeginsSound (spawned m) = IsSound m × (m.resolved ≡ false)

begin_start-BeginsSound :
    (child : ℕ) (server : Server)
    → server.actual_port ≡ none
    → BeginsSound (begin_start child server)
unfolding begin_start
begin_start-BeginsSound child server e = begins server.child
  where
    begins : (o : Option ℕ) → BeginsSound (begin_on o child server)
    begins none = (record { timed = refl; settled = inl (refl, refl, e); held = inl refl }, refl)
    begins (some old) = tt

-- Whatever the child prints, in whatever pieces, and however it ends: the promise of a `start` that
-- has spawned it, of a server that knew no port, is settled at most once; it is fulfilled with the
-- port that is stored, and while it is not settled its timer runs.
pub run-IsSound :
    (child : ℕ) (server : Server) (m : Start) (events : List Event)
    → server.actual_port ≡ none
    → begin_start child server ≡ spawned m
    → IsSound (run events m)
run-IsSound child server m events unknown e =
    run-IsSound_from events m (subst BeginsSound e (begin_start-BeginsSound child server unknown)).0

-- What settles the promise whatever is printed
abbrev pub ends : Event → Bool
ends child_error = true
ends child_exit = true
ends timeout = true
ends _ = false

abbrev pub ended : List Event → Bool
ended [] = false
ended (event ∷ events) = ends event || ended events

hear-resolved : (o : Option ℕ) (m : Start) → m.resolved ≡ true → (hear o m).resolved ≡ true
hear-resolved none m h = h
hear-resolved (some p) m h = ground arith

on_lines-resolved :
    (lines : List Text) (m : Start) → m.resolved ≡ true → (on_lines lines m).resolved ≡ true
unfolding on_lines on_line
on_lines-resolved [] m h = h
on_lines-resolved (line ∷ lines) m h =
    on_lines-resolved lines (on_line line m) (hear-resolved (announced line) m h)

or_false : (b : Bool) → (b || false) ≡ true → b ≡ true
or_false true e = refl
or_false false e = e

step-resolved :
    (event : Event) (m : Start)
    → IsSound m
    → (m.resolved || ends event) ≡ true
    → (step event m).resolved ≡ true
unfolding step
step-resolved (stdout_data chunk) m h e =
    on_lines-resolved (new_lines m.out (on_data m.out chunk))
      (record m { out = on_data m.out chunk }) (or_false m.resolved e)
step-resolved (stderr_data chunk) m h e =
    on_lines-resolved (new_lines m.err (on_data m.err chunk))
      (record m { err = on_data m.err chunk }) (or_false m.resolved e)
step-resolved stdout_end m h e =
    on_lines-resolved (new_lines m.out (on_end m.out)) (record m { out = on_end m.out })
      (or_false m.resolved e)
step-resolved stderr_end m h e =
    on_lines-resolved (new_lines m.err (on_end m.err)) (record m { err = on_end m.err })
      (or_false m.resolved e)
step-resolved child_error m h e = ground arith
step-resolved child_exit m h e = ground arith
step-resolved timeout m h e = ground (arith, h.timed)

run-resolved_from :
    (events : List Event) (m : Start)
    → IsSound m
    → (m.resolved || ended events) ≡ true
    → (run events m).resolved ≡ true
unfolding run
run-resolved_from [] m h e = ground arith
run-resolved_from (event ∷ events) m h e =
    run-resolved_from events (step event m) (step-IsSound event m h)
      (ground (arith, step-resolved event m h))

once_settled :
    (m : Start) → IsSound m → m.resolved ≡ true → (s : Settlement) × (m.settlements ≡ s ∷ [])
once_settled m h e = elim h.settled [
  | inl (empty, open_, unknown) ↦ cc
  | inr (inl (p, done, yes_, known)) ↦ (fulfilled p, done)
  | inr (inr (r, done, yes_, unknown)) ↦ (rejected r, done)
]

-- If the child fails or exits or the timeout ends, at any place in what happens to a start that has
-- spawned it, of a server that knew no port, the promise is settled afterwards: `resolve` or
-- `reject` was called, and once.
pub run-resolved :
    (child : ℕ) (server : Server) (m : Start) (events : List Event)
    → server.actual_port ≡ none
    → begin_start child server ≡ spawned m
    → ended events ≡ true
    → (s : Settlement) × ((run events m).settlements ≡ s ∷ [])
run-resolved child server m events unknown e end =
    let (sound, fresh_) = subst BeginsSound e (begin_start-BeginsSound child server unknown) in
    once_settled (run events m) (run-IsSound_from events m sound)
      (run-resolved_from events m sound (ground arith))

already_on :
    (o : Option ℕ) (child p : ℕ) (server : Server)
    → is_some o ≡ true
    → server.actual_port ≡ some p
    → begin_on o child server ≡ already p
unfolding port
already_on none child p server h e = cc
already_on (some old) child p server h e = ap (λ q. already (get_or_else q server.options.port)) e

fulfilled_exit :
    (p : ℕ) (m : Start)
    → IsSound m
    → m.settlements ≡ fulfilled p ∷ []
    → let m' = step child_exit m in
      (is_some m'.server.child ≡ true) × (m'.server.actual_port ≡ some p)
unfolding step
fulfilled_exit p m h e = ground (arith, h.settled, h.held)

-- A child that has exited after it had announced its port is still taken for a running one: the
-- next `start` spawns nothing and returns the old port.
pub begin_start_stale :
    (child next p : ℕ) (server : Server) (m : Start) (events : List Event)
    → server.actual_port ≡ none
    → begin_start child server ≡ spawned m
    → (run events m).settlements ≡ fulfilled p ∷ []
    → begin_start next (step child_exit (run events m)).server ≡ already p
unfolding begin_start
begin_start_stale child next p server m events unknown e done =
    let m' = run events m in
    let (held, known) = fulfilled_exit p m' (run-IsSound child server m events unknown e) done in
    already_on (step child_exit m').server.child next p (step child_exit m').server held known
