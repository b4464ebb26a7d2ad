-- ===== src/Connection/Finishing.antt =====
-- What is left of the loop behind `stop`.
use toolchain_cpp.Common.{ℕ, ◌+◌, ◌≤◌, true, false, some, ◌≡◌, refl, sym, ◌∙◌, ◌⊎◌, inl, inr, arith}
use toolchain_cpp.Connection.{NetworkConnection}
use toolchain_cpp.Connection.Loop.{
  Place, testing, preparing, posting, serving, ending, checking, finished, failed, Stopper,
  not_called, flagged, returned, World, at, LoopStep, leave, enter, log_fails, break, prepare, post,
  post_throws, serve, serve_ends, clean, repeat, finish, Step, loop, stop_flags, stop_closes, Steps,
  none_more, then_step,
}
use toolchain_cpp.Connection.Stopping.{IsValid, IsSound, Steps-IsSound, Step-IsSound}

-- The steps that are left.
abbrev pub left : Place → ℕ
left posting = 4
left serving = 3
left ending = 2
left checking = 1
left testing = 1
left preparing = 1
left finished = 0
left failed = 0

LoopStep-left :
    (c d : Place × NetworkConnection)
    → LoopStep returned c d
    → IsValid returned c
    → left d.0 + 1 ≤ left c.0
LoopStep-left c d (leave s e) h = omega arith
LoopStep-left c d (enter s t opens e o) h = let full = h.flags.0 in absurd (ground arith)
LoopStep-left c d (log_fails s opens e o) h = omega arith
LoopStep-left c d (break s e) h = omega arith
LoopStep-left c d (prepare s e) h = let full = h.flags.0 in absurd (ground arith)
LoopStep-left c d (post s) h = omega arith
LoopStep-left c d (post_throws s) h = omega arith
LoopStep-left c d (serve s t buffer e i o) h =
    let both : some true ≡ some false = sym h.flags.1 ∙ i in cc
LoopStep-left c d (serve_ends s) h = omega arith
LoopStep-left c d (clean s) h = omega arith
LoopStep-left c d (repeat s e) h = let full = h.flags.0 in absurd (ground arith)
LoopStep-left c d (finish s e) h = omega arith

-- The loop is behind its end, or it can go on.
LoopStep-next :
    (p : Place) (s : NetworkConnection)
    → IsValid returned (p, s)
    → (left p ≡ 0) ⊎ ((d : Place × NetworkConnection) × LoopStep returned (p, s) d)
LoopStep-next testing s h = inr ((finished, s), leave s h.flags.0)
LoopStep-next preparing s h = inr ((finished, s), break s h.flags.0)
LoopStep-next posting s h = inr (_, post s)
LoopStep-next serving s h = inr (_, serve_ends s)
LoopStep-next ending s h = inr (_, clean s)
LoopStep-next checking s h = let full = h.flags.0 in inr ((finished, s), finish s (ground arith))
LoopStep-next finished s h = inl refl
LoopStep-next failed s h = inl refl

Step-left :
    (u v : World)
    → Step u v
    → u.stopper ≡ returned
    → IsSound u
    → (v.stopper ≡ returned) × (left v.place + 1 ≤ left u.place)
Step-left u v (loop returned p q s t step) e h = (refl, LoopStep-left (p, s) (q, t) step h)
Step-left u v (loop not_called p q s t step) e h = cc
Step-left u v (loop flagged p q s t step) e h = cc
Step-left u v (stop_flags p s) e h = cc
Step-left u v (stop_closes p s) e h = cc

-- The loop behind `n` further steps.
pub record LoopEnds (n : ℕ) (w : World) : Type 0 where
  pub few : n + left w.place ≤ 4
  pub goes_on : (left w.place ≡ 0) ⊎ ((v : World) × Step w v)

World-next :
    (k : Stopper) (p : Place) (s : NetworkConnection)
    → k ≡ returned
    → IsValid k (p, s)
    → (left p ≡ 0) ⊎ ((v : World) × Step (at p k s) v)
World-next not_called p s e h = cc
World-next flagged p s e h = cc
World-next returned p s e h = elim (LoopStep-next p s h) [
  | inl none_left ↦ inl none_left
  | inr ((q, t), step) ↦ inr (at q returned t, loop returned p q s t step)
]

left_bound : (p : Place) → left p ≤ 4
left_bound testing = omega arith
left_bound preparing = omega arith
left_bound posting = omega arith
left_bound serving = omega arith
left_bound ending = omega arith
left_bound checking = omega arith
left_bound finished = omega arith
left_bound failed = omega arith

Steps-left :
    (n : ℕ) (u v : World)
    → Steps n u v
    → u.stopper ≡ returned
    → IsSound u
    → (v.stopper ≡ returned) × IsSound v × (n + left v.place ≤ left u.place)
Steps-left n u v (none_more w) e h = (e, h, omega arith)
Steps-left n u v (then_step m x y z first rest) e h =
    let one = Step-left x y first e h in
    let more = Steps-left m y z rest one.0 (Step-IsSound x y first h) in
    (more.0, more.1, omega (arith, one.1, more.2))

-- From the beginning of the loop, with any handlers, reconnections and the steps of one `stop` between its steps: once
-- `stop` has returned, the loop makes at most four more steps, and as long as it is not behind its end there is a next one, so it
-- ends, wherever it stood when `stop` was called.
pub stop-LoopEnds :
    (s : NetworkConnection) (m n : ℕ) (v w : World)
    → Steps m (at testing not_called s) v
    → v.stopper ≡ returned
    → Steps n v w
    → LoopEnds n w
stop-LoopEnds s m n v w before e after =
    let sound =
      Steps-IsSound m (at testing not_called s) v before (record { service = tt; flags = tt }) in
    let r = Steps-left n v w after e sound in
    let bound = left_bound v.place in
    record { few = omega (arith, r.2); goes_on = World-next w.stopper w.place w.connection r.0 r.1 }
