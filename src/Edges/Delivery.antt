-- ===== src/Edges/Delivery.antt =====
-- Each command that is queued for an edge is handed out once, in the order of the queue.
use mathlib.Core.List.{append-nil, append_assoc}
use sai_aurosy.Prelude.{
  ◌≡◌, refl, sym, ap, ◌∙◌, inl, inr, false, List, [], ◌∷◌, ◌++◌, String, ◌==◌, eq_iff, arith,
  if◌then◌else◌, Bool-cases,
}
use sai_aurosy.Hal.{Time, Command}
use sai_aurosy.Edges.{
  PendingCommand, MemoryStore, awaits, ack_all, enqueue_command, fetch_and_ack_pending_commands,
}

-- The commands that wait for an edge.
unfoldable pub waiting : String → List PendingCommand → List Command
waiting e [] = []
waiting e (p ∷ ps) = let rest = waiting e ps in if awaits e p then p.cmd ∷ rest else rest

waiting-append :
    (e : String) (ps qs : List PendingCommand) → waiting e (ps ++ qs) ≡ waiting e ps ++ waiting e qs
unfolding waiting
waiting-append e [] qs = refl
waiting-append e (p ∷ ps) qs = elim (Bool-cases (awaits e p)) [
  | inl y ↦ rw y (ap (λ x. p.cmd ∷ x) (waiting-append e ps qs))
  | inr y ↦ rw y (waiting-append e ps qs)
]

ack_all-out :
    (e : String) (now : Time) (ps : List PendingCommand) → (ack_all e now ps).1 ≡ waiting e ps
unfolding waiting ack_all
ack_all-out e now [] = refl
ack_all-out e now (p ∷ ps) = elim (Bool-cases (awaits e p)) [
  | inl y ↦ rw y (ap (λ x. p.cmd ∷ x) (ack_all-out e now ps))
  | inr y ↦ rw y (ack_all-out e now ps)
]

waiting-ack_all-same :
    (e : String) (now : Time) (ps : List PendingCommand) → waiting e (ack_all e now ps).0 ≡ []
unfolding waiting ack_all
waiting-ack_all-same e now [] = refl
waiting-ack_all-same e now (p ∷ ps) = elim (Bool-cases (awaits e p)) [
  | inl y ↦ ground (arith, y, waiting-ack_all-same e now ps)
  | inr y ↦ ground (arith, y, waiting-ack_all-same e now ps)
]

waiting-ack_all-other :
    (e d : String) (now : Time) (ps : List PendingCommand)
    → (e == d) ≡ false
    → waiting d (ack_all e now ps).0 ≡ waiting d ps
unfolding waiting ack_all
waiting-ack_all-other e d now [] n = refl
waiting-ack_all-other e d now (p ∷ ps) n = elim (Bool-cases (awaits e p)) [
  | inl y ↦ ground (
    arith,
    y,
    waiting-ack_all-other e d now ps n,
    eq_iff p.edge_id e,
    eq_iff p.edge_id d,
    eq_iff e d,
  )
  | inr y ↦ ground (arith, y, waiting-ack_all-other e d now ps n)
]

-- The calls of the API server and of the edges' heartbeats, in the order of the mutex.
pub data Op : Type 0 where
  enqueue : String → String → String → Command → Time → Op
  fetch : String → Time → Op

unfoldable pub step : Op → MemoryStore → MemoryStore
step (enqueue id e r cmd now) s = enqueue_command id e r cmd now s
step (fetch e now) s = (fetch_and_ack_pending_commands e now s).0

unfoldable pub run : List Op → MemoryStore → MemoryStore
unfolding step
run [] s = s
run (op ∷ ops) s = run ops (step op s)

-- What one call hands out for an edge, and what it queues for it.
unfoldable pub handed_out : String → Op → MemoryStore → List Command
handed_out e (enqueue id d r cmd now) s = []
handed_out e (fetch d now) s = if d == e then (fetch_and_ack_pending_commands d now s).1 else []

unfoldable pub queued : String → Op → List Command
queued e (enqueue id d r cmd now) = if d == e then cmd ∷ [] else []
queued e (fetch d now) = []

unfoldable pub all_handed_out : String → List Op → MemoryStore → List Command
unfolding handed_out
all_handed_out e [] s = []
all_handed_out e (op ∷ ops) s = handed_out e op s ++ all_handed_out e ops (step op s)

unfoldable pub all_queued : String → List Op → List Command
unfolding queued
all_queued e [] = []
all_queued e (op ∷ ops) = queued e op ++ all_queued e ops

step-waiting :
    (e : String) (op : Op) (s : MemoryStore)
    → handed_out e op s ++ waiting e (step op s).cmds ≡ waiting e s.cmds ++ queued e op
unfolding handed_out step queued fetch_and_ack_pending_commands enqueue_command
step-waiting e (enqueue id d r cmd now) s =
    waiting-append e s.cmds _
    ∙ ap (λ x. waiting e s.cmds ++ x) (unfold waiting in ground (arith, eq_iff d e))
step-waiting e (fetch d now) s = elim (Bool-cases (d == e)) [
  | inl y ↦
      rw (y, (eq_iff d e).0 y, ack_all-out e now s.cmds, waiting-ack_all-same e now s.cmds) refl
  | inr y ↦ rw (y, waiting-ack_all-other d e now s.cmds y) (sym (append-nil (waiting e s.cmds)))
]

-- For every sequence of calls and every edge: the commands that were handed out to the edge, in their
-- order, followed by those that still wait, are those that waited before, followed by those that were
-- queued for it, in their order. So none is lost, repeated, reordered or sent to another edge.
pub exactly_once :
    (e : String) (ops : List Op) (s : MemoryStore)
    → all_handed_out e ops s ++ waiting e (run ops s).cmds ≡ waiting e s.cmds ++ all_queued e ops
unfolding all_handed_out all_queued run
exactly_once e [] s = sym (append-nil (waiting e s.cmds))
exactly_once e (op ∷ ops) s =
    append_assoc (handed_out e op s) (all_handed_out e ops (step op s))
      (waiting e (run ops (step op s)).cmds)
    ∙ ap (λ x. handed_out e op s ++ x) (exactly_once e ops (step op s))
    ∙ sym (append_assoc (handed_out e op s) (waiting e (step op s).cmds) (all_queued e ops))
    ∙ ap (λ x. x ++ all_queued e ops) (step-waiting e op s)
    ∙ append_assoc (waiting e s.cmds) (queued e op) (all_queued e ops)
