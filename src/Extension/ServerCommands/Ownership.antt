-- ===== src/Extension/ServerCommands/Ownership.antt =====
-- src/extension/sessionManager.ts: whether the manager knows every local server that it has started.
use nettprogg_vsc.Common.{
  ℕ, suc, String, List, [], ◌∷◌, ◌==◌, Option, none, some, ◌≡◌, refl, arith, str_eq, ==_iff, sym,
  map, subst, Bool-cases, inl, inr,
}
use nettprogg_vsc.Extension.LocalServer.{Kind}
use nettprogg_vsc.Extension.ServerCommands.{
  Asking, Launched, launched, Servers, no_servers, Event, start_asked, port_answered,
  start_fulfilled, start_rejected, shutdown_forced, ask_port, answer_port, finish_start, fail_start,
  force_shutdown, step, run,
}

-- What a manager may be at where its commands do not overlap: no server runs and no call waits, the
-- dialog of a call is open, a server starts, or one runs that the manager knows. Each has the kind
-- last stored and the number of the next call.
data Shape : Type 0 where
  free : Option Kind → ℕ → Shape
  asks : Asking → Option Kind → ℕ → Shape
  starts : Launched → Option Kind → ℕ → Shape
  owns : Launched → Option Kind → ℕ → Shape

abbrev shape : Shape → Servers
shape (free kind next) = record no_servers { local_server_kind = kind; next = next }
shape (asks a kind next) = record no_servers {
  asking = a ∷ [];
  local_server_kind = kind;
  next = next;
}
shape (starts l kind next) = record no_servers {
  starting = l ∷ [];
  running = l.name ∷ [];
  local_server_kind = kind;
  next = next;
}
shape (owns l kind next) = record no_servers {
  local_server = some l;
  running = l.name ∷ [];
  local_server_kind = kind;
  next = next;
}

-- The event asks for a server only where no other call waits.
abbrev pub IsAlone : Event → Servers → Type 0
IsAlone (start_asked kind) s = (s.asking ≡ []) × (s.starting ≡ [])
IsAlone _ s = Unit

module _ (to_number : String → ℕ) (extension_path : String) where
  -- No two commands overlap.
  abbrev pub AreAlone : List Event → Servers → Type 0
  AreAlone [] s = Unit
  AreAlone (event ∷ events) s =
      IsAlone event s × AreAlone events (step to_number extension_path event s)

  abbrev HasShape : Servers → Type 0
  HasShape s = (sh : Shape) × (s ≡ shape sh)

  asked-HasShape :
      (kind : Kind) (sh : Shape)
      → IsAlone (start_asked kind) (shape sh)
      → HasShape (step to_number extension_path (start_asked kind) (shape sh))
  unfolding step ask_port
  asked-HasShape kind (free k n) h = (asks (record { name = n; kind = kind }) k (suc n), refl)
  asked-HasShape kind (asks a k n) (e, f) = cc
  asked-HasShape kind (starts l k n) (e, f) = cc
  asked-HasShape kind (owns l k n) h = (owns l k n, refl)

  answered-HasShape :
      (name : ℕ) (input : Option String) (sh : Shape)
      → HasShape (step to_number extension_path (port_answered name input) (shape sh))
  unfolding step answer_port
  answered-HasShape name none (asks a k n) = elim (Bool-cases (a.name == name)) [
    | inl same ↦ (free k n, rw same (ground (arith, ==_iff a.name a.name)))
    | inr other ↦ (asks a k n, rw other)
  ]
  answered-HasShape name (some input) (asks a k n) = elim (Bool-cases (a.name == name)) [
    | inl same ↦ elim (Bool-cases (str_eq input "")) [
      | inl empty ↦ (free k n, rw (same, empty) (ground (arith, ==_iff a.name a.name)))
      | inr full ↦ (
        starts (launched to_number extension_path a input) k n,
        rw (same, full) (ground (arith, ==_iff a.name a.name)),
      )
    ]
    | inr other ↦ (asks a k n, rw other)
  ]
  answered-HasShape name input (free k n) = (free k n, refl)
  answered-HasShape name input (starts l k n) = (starts l k n, refl)
  answered-HasShape name input (owns l k n) = (owns l k n, refl)

  fulfilled-HasShape :
      (name : ℕ) (sh : Shape)
      → HasShape (step to_number extension_path (start_fulfilled name) (shape sh))
  unfolding step finish_start
  fulfilled-HasShape name (starts l k n) = elim (Bool-cases (l.name == name)) [
    | inl same ↦ (owns l (some l.options.kind) n, rw same (ground (arith, ==_iff l.name l.name)))
    | inr other ↦ (starts l k n, rw other)
  ]
  fulfilled-HasShape name (free k n) = (free k n, refl)
  fulfilled-HasShape name (asks a k n) = (asks a k n, refl)
  fulfilled-HasShape name (owns l k n) = (owns l k n, refl)

  rejected-HasShape :
      (name : ℕ) (sh : Shape)
      → HasShape (step to_number extension_path (start_rejected name) (shape sh))
  unfolding step fail_start
  rejected-HasShape name (starts l k n) = elim (Bool-cases (l.name == name)) [
    | inl same ↦ (free k n, rw same (ground (arith, ==_iff l.name l.name)))
    | inr other ↦ (starts l k n, rw other)
  ]
  rejected-HasShape name (free k n) = (free k n, refl)
  rejected-HasShape name (asks a k n) = (asks a k n, refl)
  rejected-HasShape name (owns l k n) = (owns l k n, refl)

  shutdown-HasShape :
      (sh : Shape) → HasShape (step to_number extension_path shutdown_forced (shape sh))
  unfolding step force_shutdown
  shutdown-HasShape (free k n) = (free none n, refl)
  shutdown-HasShape (asks a k n) = (asks a none n, refl)
  shutdown-HasShape (starts l k n) = (starts l none n, refl)
  shutdown-HasShape (owns l k n) = (free none n, ground (arith, ==_iff l.name l.name))

  step-HasShape :
      (event : Event) (sh : Shape)
      → IsAlone event (shape sh)
      → HasShape (step to_number extension_path event (shape sh))
  step-HasShape (start_asked kind) sh h = asked-HasShape kind sh h
  step-HasShape (port_answered name input) sh h = answered-HasShape name input sh
  step-HasShape (start_fulfilled name) sh h = fulfilled-HasShape name sh
  step-HasShape (start_rejected name) sh h = rejected-HasShape name sh
  step-HasShape shutdown_forced sh h = shutdown-HasShape sh

  run-HasShape :
      (events : List Event) (s : Servers)
      → HasShape s
      → AreAlone events s
      → HasShape (run to_number extension_path events s)
  unfolding run
  run-HasShape [] s h a = h
  run-HasShape (event ∷ events) s (sh, e) (a, as_) =
      run-HasShape events (step to_number extension_path event s)
        (subst (λ t. HasShape (step to_number extension_path event t)) (sym e)
          (step-HasShape event sh (subst (IsAlone event) e a)))
        as_

  left_running :
      (sh : Shape)
      → (step to_number extension_path shutdown_forced (shape sh)).running
        ≡ map (λ l. l.name) (shape sh).starting
  unfolding step force_shutdown
  left_running (free k n) = refl
  left_running (asks a k n) = refl
  left_running (starts l k n) = refl
  left_running (owns l k n) = ground (arith, ==_iff l.name l.name)

  -- If no server is asked for while an earlier call still waits, a forced shutdown, at any time,
  -- leaves no server running but one whose start is still awaited.
  pub running-shutdown_forced :
      (events : List Event)
      → AreAlone events no_servers
      → let s = run to_number extension_path events no_servers in
        (step to_number extension_path shutdown_forced s).running ≡ map (λ l. l.name) s.starting
  running-shutdown_forced events a =
      let (sh, e) = run-HasShape events no_servers (free none 0, refl) a in
      subst
        (λ s.
          (step to_number extension_path shutdown_forced s).running ≡ map (λ l. l.name) s.starting)
        (sym e) (left_running sh)
