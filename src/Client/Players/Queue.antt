-- ===== src/Client/Players/Queue.antt =====
-- The queue of actions of a player.
use bf_multiplayer.Prelude.{
  ℕ, zero, suc, Bool, if◌then◌else◌, ◌+◌, ◌≡◌, ◌≤◌, ◌<◌, refl, List, [], ◌∷◌, ◌++◌, ◌==◌, arith,
  All, Bool-cases, inl, inr,
}
use bf_multiplayer.Packet.{ActionPacketData}
use bf_multiplayer.Client.Players.{QueueEntry, run_queue}

-- How many actions a test holds of.
abbrev pub count : (ActionPacketData → Bool) → List ActionPacketData → ℕ
count test [] = 0
count test (a ∷ us) = (if test a then 1 else 0) + count test us

pub count-append :
    (test : ActionPacketData → Bool) (us bs : List ActionPacketData)
    → count test (us ++ bs) ≡ count test us + count test bs
count-append test [] bs = omega arith
count-append test (a ∷ us) bs = omega (arith, count-append test us bs)

abbrev pub actions : List QueueEntry → List ActionPacketData
actions [] = []
actions (e ∷ es) = e.action ∷ actions es

-- A frame neither loses nor repeats an action.
pub run_queue-count :
    (test : ActionPacketData → Bool) (es : List QueueEntry)
    → count test (run_queue es).0 + count test (actions (run_queue es).1) ≡ count test (actions es)
unfolding run_queue
run_queue-count test [] = refl
run_queue-count test (e ∷ []) = ground arith
run_queue-count test (e ∷ next ∷ es) =
    ground (arith, run_queue-count test es, run_queue-count test (next ∷ es))

-- Every entry waits for at least one more frame.
abbrev pub AreWaiting : List QueueEntry → Type 0
AreWaiting = All (λ (e : QueueEntry). 0 < e.frames_left)

-- The frames that the entries wait for, all together.
abbrev pub frames_left : List QueueEntry → ℕ
frames_left [] = 0
frames_left (e ∷ es) = e.frames_left + frames_left es

run_queue-AreWaiting : (es : List QueueEntry) → AreWaiting es → AreWaiting (run_queue es).1
unfolding run_queue
run_queue-AreWaiting [] a = tt
run_queue-AreWaiting (e ∷ []) a = elim (Bool-cases (e.frames_left == 1)) [
  | inl due ↦ rw due tt
  | inr later ↦ rw later (ground (arith, a.0), tt)
]
run_queue-AreWaiting (e ∷ next ∷ es) a = elim (Bool-cases (e.frames_left == 1)) [
  | inl due ↦ rw due (a.1.0, run_queue-AreWaiting es a.1.1)
  | inr later ↦ rw later (ground (arith, a.0), run_queue-AreWaiting (next ∷ es) a.1)
]

run_queue-frames_left_le : (es : List QueueEntry) → frames_left (run_queue es).1 ≤ frames_left es
unfolding run_queue
run_queue-frames_left_le [] = omega arith
run_queue-frames_left_le (e ∷ []) = ground arith
run_queue-frames_left_le (e ∷ next ∷ es) =
    ground (arith, run_queue-frames_left_le es, run_queue-frames_left_le (next ∷ es))

-- In each frame the first entry comes nearer, whatever entry is passed over.
run_queue-frames_left :
    (e : QueueEntry) (es : List QueueEntry)
    → 0 < e.frames_left
    → frames_left (run_queue (e ∷ es)).1 < frames_left (e ∷ es)
unfolding run_queue
run_queue-frames_left e [] h = ground arith
run_queue-frames_left e (next ∷ es) h =
    ground (arith, run_queue-frames_left_le es, run_queue-frames_left_le (next ∷ es))

-- A number of frames: all the actions that start, in their order, and the queue that is left.
unfoldable pub run_frames : ℕ → List QueueEntry → List ActionPacketData × List QueueEntry
run_frames zero es = ([], es)
run_frames (suc n) es =
    let frame = run_queue es in let rest = run_frames n frame.1 in (frame.0 ++ rest.0, rest.1)

run_frames-count :
    (test : ActionPacketData → Bool) (n : ℕ) (es : List QueueEntry)
    → count test (run_frames n es).0 + count test (actions (run_frames n es).1)
      ≡ count test (actions es)
unfolding run_frames
run_frames-count test zero es = omega arith
run_frames-count test (suc n) es = omega (
  arith,
  run_queue-count test es,
  run_frames-count test n (run_queue es).1,
  count-append test (run_queue es).0 (run_frames n (run_queue es).1).0,
)

run_frames_empty : (n : ℕ) → (run_frames n []).1 ≡ []
unfolding run_frames run_queue
run_frames_empty zero = refl
run_frames_empty (suc n) = run_frames_empty n

run_frames_drains :
    (n : ℕ) (es : List QueueEntry) → AreWaiting es → frames_left es ≤ n → (run_frames n es).1 ≡ []
unfolding run_frames
run_frames_drains n [] a h = run_frames_empty n
run_frames_drains zero (e ∷ es) a h = absurd (omega (arith, a.0))
run_frames_drains (suc n) (e ∷ es) a h =
    run_frames_drains n (run_queue (e ∷ es)).1 (run_queue-AreWaiting (e ∷ es) a)
      (omega (arith, run_queue-frames_left e es a.0))

-- Every action starts, and as often as it was queued: after as many frames as the entries have left
-- together, and without new actions, the queue is empty, and any test holds of as many of the actions
-- that have started as of those in the queue, although an entry behind one that starts is passed over
-- in that frame.
pub run_frames-count_all :
    (test : ActionPacketData → Bool) (n : ℕ) (es : List QueueEntry)
    → AreWaiting es
    → frames_left es ≤ n
    → ((run_frames n es).1 ≡ []) × (count test (run_frames n es).0 ≡ count test (actions es))
run_frames-count_all test n es a h =
    let empty = run_frames_drains n es a h in
    (empty, ground (arith, run_frames-count test n es, empty))
