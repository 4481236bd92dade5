-- ===== src/Extension/LocalServer/Starting/Hearing.antt =====
-- src/extension/localRustServer.ts: the line that announces a port, however the output comes.
use nettprogg_vsc.Common.{
  ℕ, Text, List, [], ◌∷◌, ◌++◌, Option, none, some, ◌≡◌, refl, ap, ◌∙◌, sym, arith, is_some, map,
  subst, All, Bool, true, false,
}
use nettprogg_vsc.Extension.LineListener.{Stream, on_data, on_end, strip_cr}
use nettprogg_vsc.Extension.LineListener.Chunking.{
  split, shown, leftover, on_data_lem, on_end_lem, drop-append,
}
use nettprogg_vsc.Extension.LocalServer.{Server}
use nettprogg_vsc.Extension.LocalServer.Announcement.{announced, or_else}
use nettprogg_vsc.Extension.LocalServer.Starting.{
  Settlement, fulfilled, Start, Begun, begin_on, begin_start, already, spawned, Event, stdout_data,
  stderr_data, stdout_end, stderr_end, child_error, child_exit, timeout, hear, on_line, on_lines,
  new_lines, step, run,
}

-- The port of the first of some lines that announces one
pub first_port : List Text → Option ℕ
first_port [] = none
first_port (line ∷ lines) = or_else (announced line) (first_port lines)

first_port-append :
    (xs ys : List Text) → first_port (xs ++ ys) ≡ or_else (first_port xs) (first_port ys)
unfolding first_port
first_port-append [] ys = refl
first_port-append (x ∷ xs) ys = ground (arith, first_port-append xs ys)

abbrev pub settled_by : Option ℕ → List Settlement
settled_by none = []
settled_by (some p) = fulfilled p ∷ []

-- A start that has heard nothing, or a port
record HasHeard (o : Option ℕ) (m : Start) : Type 0 where
  resolved : m.resolved ≡ is_some o
  settled : m.settlements ≡ settled_by o

hear-HasHeard :
    (o new : Option ℕ) (m : Start) → HasHeard o m → HasHeard (or_else o new) (hear new m)
hear-HasHeard none none m h = h
hear-HasHeard none (some p) m h = record {
  resolved = ground (arith, h.resolved);
  settled = ground (arith, h.resolved, h.settled);
}
hear-HasHeard (some q) none m h = h
hear-HasHeard (some q) (some p) m h = record {
  resolved = ground (arith, h.resolved);
  settled = ground (arith, h.resolved, h.settled);
}

or_else_assoc : (a b c : Option ℕ) → or_else (or_else a b) c ≡ or_else a (or_else b c)
or_else_assoc none b c = refl
or_else_assoc (some p) b c = refl

or_else-none : (a : Option ℕ) → or_else a none ≡ a
or_else-none none = refl
or_else-none (some p) = refl

hear-out : (new : Option ℕ) (m : Start) → (hear new m).out ≡ m.out
hear-out none m = refl
hear-out (some p) m = ground arith

on_lines-out : (lines : List Text) (m : Start) → (on_lines lines m).out ≡ m.out
unfolding on_lines on_line
on_lines-out [] m = refl
on_lines-out (line ∷ lines) m = on_lines-out lines (on_line line m) ∙ hear-out (announced line) m

on_lines-HasHeard :
    (o : Option ℕ) (lines : List Text) (m : Start)
    → HasHeard o m
    → HasHeard (or_else o (first_port lines)) (on_lines lines m)
unfolding on_lines on_line first_port
on_lines-HasHeard o [] m h = subst (λ q. HasHeard q m) (sym (or_else-none o)) h
on_lines-HasHeard o (line ∷ lines) m h =
    subst (λ q. HasHeard q (on_lines lines (on_line line m)))
      (or_else_assoc o (announced line) (first_port lines))
      (on_lines-HasHeard (or_else o (announced line)) lines (on_line line m)
        (hear-HasHeard o (announced line) m h))

hear-err : (new : Option ℕ) (m : Start) → (hear new m).err ≡ m.err
hear-err none m = refl
hear-err (some p) m = ground arith

on_lines-err : (lines : List Text) (m : Start) → (on_lines lines m).err ≡ m.err
unfolding on_lines on_line
on_lines-err [] m = refl
on_lines-err (line ∷ lines) m = on_lines-err lines (on_line line m) ∙ hear-err (announced line) m

-- The lines of two streams in the order in which they are complete, where some text of each has
-- come already that no line break follows. What is left at the end of a stream is a line.
pub lines_heard : List Event → Text → Text → List Text
lines_heard [] out err = []
lines_heard (stdout_data chunk ∷ events) out err =
    let p = split (out ++ chunk) in map strip_cr p.0 ++ lines_heard events p.1 err
lines_heard (stderr_data chunk ∷ events) out err =
    let p = split (err ++ chunk) in map strip_cr p.0 ++ lines_heard events out p.1
lines_heard (stdout_end ∷ events) out err = leftover out ++ lines_heard events [] err
lines_heard (stderr_end ∷ events) out err = leftover err ++ lines_heard events out []
lines_heard (child_error ∷ events) out err = lines_heard events out err
lines_heard (child_exit ∷ events) out err = lines_heard events out err
lines_heard (timeout ∷ events) out err = lines_heard events out err

-- The child prints, or closes one of its streams.
abbrev pub prints : Event → Bool
prints child_error = false
prints child_exit = false
prints timeout = false
prints _ = true

-- A start that has heard a port or none, with what waits of its two streams
record Listens (o : Option ℕ) (out err : Text) (m : Start) : Type 0 where
  heard : HasHeard o m
  out_eq : m.out.buffer ≡ out
  err_eq : m.err.buffer ≡ err

on_lines_out-Listens :
    (o : Option ℕ) (out err next : Text) (lines : List Text) (m : Start) (now : Stream)
    → Listens o out err m
    → now ≡ record { buffer = next; lines = m.out.lines ++ lines }
    → Listens
        (or_else o (first_port lines))
        next
        err
        (on_lines (new_lines m.out now) (record m { out = now }))
on_lines_out-Listens o out err next lines m now h e =
    let m1 : Start = record m { out = now } in
    let new : new_lines m.out now ≡ lines =
      ap (λ s. new_lines m.out s) e ∙ drop-append m.out.lines lines in
    subst (λ ls. Listens (or_else o (first_port lines)) next err (on_lines ls m1)) (sym new)
      (record {
        heard =
            on_lines-HasHeard o lines m1
              (record { resolved = h.heard.resolved; settled = h.heard.settled });
        out_eq = ap (λ s. s.buffer) (on_lines-out lines m1 ∙ e);
        err_eq = ap (λ s. s.buffer) (on_lines-err lines m1) ∙ h.err_eq;
      })

on_lines_err-Listens :
    (o : Option ℕ) (out err next : Text) (lines : List Text) (m : Start) (now : Stream)
    → Listens o out err m
    → now ≡ record { buffer = next; lines = m.err.lines ++ lines }
    → Listens
        (or_else o (first_port lines))
        out
        next
        (on_lines (new_lines m.err now) (record m { err = now }))
on_lines_err-Listens o out err next lines m now h e =
    let m1 : Start = record m { err = now } in
    let new : new_lines m.err now ≡ lines =
      ap (λ s. new_lines m.err s) e ∙ drop-append m.err.lines lines in
    subst (λ ls. Listens (or_else o (first_port lines)) out next (on_lines ls m1)) (sym new)
      (record {
        heard =
            on_lines-HasHeard o lines m1
              (record { resolved = h.heard.resolved; settled = h.heard.settled });
        out_eq = ap (λ s. s.buffer) (on_lines-out lines m1) ∙ h.out_eq;
        err_eq = ap (λ s. s.buffer) (on_lines-err lines m1 ∙ e);
      })

-- The lines of one event and those of the later ones
heard_on :
    (o : Option ℕ) (lines rest : List Text)
    → settled_by (or_else (or_else o (first_port lines)) (first_port rest))
      ≡ settled_by (or_else o (first_port (lines ++ rest)))
heard_on o lines rest = ap settled_by (
    or_else_assoc o (first_port lines) (first_port rest)
    ∙ ap (or_else o) (sym (first_port-append lines rest)))

run-Listens :
    (events : List Event) (o : Option ℕ) (out err : Text) (m : Start)
    → All (λ event. prints event ≡ true) events
    → Listens o out err m
    → (run events m).settlements ≡ settled_by (or_else o (first_port (lines_heard events out err)))
unfolding run step lines_heard first_port
run-Listens [] o out err m ps h = h.heard.settled ∙ ap settled_by (sym (or_else-none o))
run-Listens (stdout_data chunk ∷ events) o out err m (p, ps) h =
    let whole = split (out ++ chunk) in
    run-Listens events _ whole.1 err _ ps (
      on_lines_out-Listens o out err whole.1 (map strip_cr whole.0) m (on_data m.out chunk) h
        (on_data_lem m.out chunk ∙ ap (λ text. shown m.out.lines (split (text ++ chunk))) h.out_eq))
    ∙ heard_on o (map strip_cr whole.0) (lines_heard events whole.1 err)
run-Listens (stderr_data chunk ∷ events) o out err m (p, ps) h =
    let whole = split (err ++ chunk) in
    run-Listens events _ out whole.1 _ ps (
      on_lines_err-Listens o out err whole.1 (map strip_cr whole.0) m (on_data m.err chunk) h
        (on_data_lem m.err chunk ∙ ap (λ text. shown m.err.lines (split (text ++ chunk))) h.err_eq))
    ∙ heard_on o (map strip_cr whole.0) (lines_heard events out whole.1)
run-Listens (stdout_end ∷ events) o out err m (p, ps) h =
    run-Listens events _ [] err _ ps (
      on_lines_out-Listens o out err [] (leftover out) m (on_end m.out) h (
        on_end_lem m.out
        ∙ ap (λ text. record { buffer = []; lines = m.out.lines ++ leftover text }) h.out_eq))
    ∙ heard_on o (leftover out) (lines_heard events [] err)
run-Listens (stderr_end ∷ events) o out err m (p, ps) h =
    run-Listens events _ out [] _ ps (
      on_lines_err-Listens o out err [] (leftover err) m (on_end m.err) h (
        on_end_lem m.err
        ∙ ap (λ text. record { buffer = []; lines = m.err.lines ++ leftover text }) h.err_eq))
    ∙ heard_on o (leftover err) (lines_heard events out [])
run-Listens (child_error ∷ events) o out err m (p, ps) h = cc
run-Listens (child_exit ∷ events) o out err m (p, ps) h = cc
run-Listens (timeout ∷ events) o out err m (p, ps) h = cc

abbrev BeginsDeaf : Begun → Type 0
BeginsDeaf (already p) = Unit
BeginsDeaf (spawned m) = Listens none [] [] m

begins_on : (o : Option ℕ) (child : ℕ) (server : Server) → BeginsDeaf (begin_on o child server)
begins_on none child server = record {
  heard = record { resolved = refl; settled = refl };
  out_eq = refl;
  err_eq = refl;
}
begins_on (some old) child server = tt

begins : (child : ℕ) (server : Server) → BeginsDeaf (begin_start child server)
unfolding begin_start
begins child server = begins_on server.child child server

-- However the decoded text of the two streams of a spawned server comes, in whatever pieces and
-- however the streams alternate: as long as the server only prints and closes its streams, the
-- promise of `start` is fulfilled with the port of the first line, as lines are completed, that
-- announces one, and is not settled where none does. What is left of a stream at its end is a line.
pub run-settlements :
    (child : ℕ) (server : Server) (m : Start) (events : List Event)
    → begin_start child server ≡ spawned m
    → All (λ event. prints event ≡ true) events
    → (run events m).settlements ≡ settled_by (first_port (lines_heard events [] []))
run-settlements child server m events e ps =
    run-Listens events none [] [] m ps (subst BeginsDeaf e (begins child server))
