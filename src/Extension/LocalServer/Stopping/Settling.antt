-- ===== src/Extension/LocalServer/Stopping/Settling.antt =====
-- src/extension/localRustServer.ts, `stop`: how often its promise is resolved, and what is sent.
use nettprogg_vsc.Common.{
  List, [], ◌∷◌, Bool, true, false, not, ◌||◌, some, ◌≡◌, refl, ◌⊎◌, inl, inr, arith, cond,
  branches, sym, subst, ap, ◌∙◌,
}
use nettprogg_vsc.Extension.LocalServer.Stopping.{
  sigterm, sigkill, Child, Stop, Begun, over, waiting, begin_stop, Event, exit, close, timeout,
  grace_over, step, run,
}

-- The promise was resolved once or not at all, as the flag says; until then the timeout runs and
-- both listeners wait; and the signals are one SIGTERM and perhaps one SIGKILL, which the
-- escalation sends when its timer ends, or none where `kill` throws.
pub record IsSound (m : Stop) : Type 0 where
  pub once : m.resolutions ≡ cond m.resolved 1 0
  pub timed : (m.resolved ≡ true) ⊎ (m.timeout_set ≡ true)
  pub listens : (m.resolved ≡ true) ⊎ ((m.exit_listens ≡ true) × (m.close_listens ≡ true))
  pub sent :
      (m.signals ≡ [])
      ⊎ ((m.signals ≡ sigterm ∷ [])
          ⊎ ((m.signals ≡ sigterm ∷ sigkill ∷ []) × (m.escalate_set ≡ false)))
  pub quiet : (m.signals ≡ []) → m.escalate_set ≡ false

step-IsSound : (event : Event) (m : Stop) → IsSound m → IsSound (step event m)
unfolding step
step-IsSound (exit with_code) m h = record {
  once = ground (arith, h.once);
  timed = ground (arith, h.timed, h.listens);
  listens = ground (arith, h.listens);
  sent = ground (arith, h.sent, h.quiet);
  quiet = ground (arith, h.quiet);
}
step-IsSound close m h = record {
  once = ground (arith, h.once);
  timed = ground (arith, h.timed, h.listens);
  listens = ground (arith, h.listens);
  sent = ground (arith, h.sent, h.quiet);
  quiet = ground (arith, h.quiet);
}
step-IsSound timeout m h = record {
  once = ground (arith, h.once);
  timed = ground (arith, h.timed, h.listens);
  listens = ground (arith, h.listens);
  sent = ground (arith, h.sent, h.quiet);
  quiet = ground (arith, h.quiet);
}
step-IsSound grace_over m h = record {
  once = ground (arith, h.once);
  timed = ground (arith, h.timed, h.listens);
  listens = ground (arith, h.listens);
  sent = ground (arith, h.sent, h.quiet);
  quiet = ground (arith, h.quiet);
}

abbrev pub ends : Event → Bool
ends grace_over = false
ends _ = true

abbrev pub ended : List Event → Bool
ended [] = false
ended (event ∷ events) = ends event || ended events

step-resolved :
    (event : Event) (m : Stop) → IsSound m → (step event m).resolved ≡ (m.resolved || ends event)
unfolding step
step-resolved (exit with_code) m h = ground (arith, h.listens)
step-resolved close m h = ground (arith, h.listens)
step-resolved timeout m h = ground (arith, h.timed)
step-resolved grace_over m h = ground arith

run-IsSound : (events : List Event) (m : Stop) → IsSound m → IsSound (run events m)
unfolding run
run-IsSound [] m h = h
run-IsSound (event ∷ events) m h = run-IsSound events (step event m) (step-IsSound event m h)

run-resolved :
    (events : List Event) (m : Stop)
    → IsSound m
    → (run events m).resolved ≡ (m.resolved || ended events)
unfolding run
run-resolved [] m h = ground arith
run-resolved (event ∷ events) m h =
    ground
      (arith, step-resolved event m h, run-resolved events (step event m) (step-IsSound event m h))

-- What a waiting `stop` begins with
abbrev BeginsSound : Child → Begun → Type 0
BeginsSound child over = Unit
BeginsSound child (waiting m) =
    IsSound m
    × ((m.resolved ≡ child.kill_throws)
        × ((m.escalate_set ≡ not child.kill_throws) × (m.timeout_set ≡ not child.kill_throws)))

begin_stop-BeginsSound : (child : Child) → BeginsSound child (begin_stop (some child))
unfolding begin_stop
begin_stop-BeginsSound child =
    branches (BeginsSound child) (child.has_exited || child.killed) (λ _. tt)
      λ _.
        branches (BeginsSound child) child.kill_throws
          (λ throws. (
            record {
              once = refl;
              timed = inl refl;
              listens = inl refl;
              sent = inl refl;
              quiet = λ _. refl;
            },
            (sym throws, (rw throws, rw throws)),
          ))
          (λ kills. (
            record {
              once = refl;
              timed = inr refl;
              listens = inr (refl, refl);
              sent = inr (inl refl);
              quiet = λ e. cc;
            },
            (sym kills, (rw kills, rw kills)),
          ))

begins :
    (child : Child) (m : Stop) → begin_stop (some child) ≡ waiting m → BeginsSound child (waiting m)
begins child m e = subst (BeginsSound child) e (begin_stop-BeginsSound child)

-- Once a child that still runs is asked to stop, the promise of `stop` is resolved exactly once if
-- `kill` threw at once, or if the child exits or closes its output or the timeout ends, however
-- often and in whatever order; before that it is not resolved.
pub run-resolutions :
    (child : Child) (m : Stop) (events : List Event)
    → begin_stop (some child) ≡ waiting m
    → (run events m).resolutions ≡ cond (child.kill_throws || ended events) 1 0
run-resolutions child m events e =
    let (sound, (resolved, rest)) = begins child m e in
    (run-IsSound events m sound).once
    ∙ ap (λ b. cond b 1 0) (run-resolved events m sound ∙ ap (λ b. b || ended events) resolved)

-- The child gets SIGTERM, and after it SIGKILL at most once; nothing if `kill` throws.
pub run-signals :
    (child : Child) (m : Stop) (events : List Event)
    → begin_stop (some child) ≡ waiting m
    → ((run events m).signals ≡ [])
      ⊎ (((run events m).signals ≡ sigterm ∷ [])
          ⊎ ((run events m).signals ≡ sigterm ∷ sigkill ∷ []))
run-signals child m events e =
    let h = run-IsSound events m (begins child m e).0 in ground (arith, h.sent)

step-signals_exited :
    (event : Event) (m : Stop)
    → m.child.has_exited ≡ true
    → ((step event m).signals ≡ m.signals) × ((step event m).child.has_exited ≡ true)
unfolding step
step-signals_exited (exit with_code) m h = ground arith
step-signals_exited close m h = ground arith
step-signals_exited timeout m h = ground arith
step-signals_exited grace_over m h = ground arith

-- A child that has an exit code gets no signal any more.
pub run-signals_exited :
    (events : List Event) (m : Stop)
    → m.child.has_exited ≡ true
    → (run events m).signals ≡ m.signals
unfolding run
run-signals_exited [] m h = refl
run-signals_exited (event ∷ events) m h =
    let (same, still) = step-signals_exited event m h in
    run-signals_exited events (step event m) still ∙ same

-- If the child exits before its grace is over, the promise is resolved and the timer of the
-- escalation still runs; if the timeout ends first, that timer is cleared.
pub step-escalate_set :
    (child : Child) (m : Stop) (with_code : Bool)
    → begin_stop (some child) ≡ waiting m
    → child.kill_throws ≡ false
    → ((step (exit with_code) m).resolved ≡ true)
      × ((step (exit with_code) m).escalate_set ≡ true)
      × ((step timeout m).resolved ≡ true)
      × ((step timeout m).escalate_set ≡ false)
unfolding step
step-escalate_set child m with_code e h =
    let (sound, (resolved, (escalates, timed))) = begins child m e in ground (arith, sound.listens)
