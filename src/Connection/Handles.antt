-- ===== src/Connection/Handles.antt =====
-- The handles of the timers.
use toolchain_cpp.Common.{
  ℕ, ◌+◌, List, [], ◌∷◌, ◌++◌, some, ◌==◌, ◌≡◌, refl, length, length-append, ok, arith, inl, inr,
  Bool-cases, Option-cases,
}
use toolchain_cpp.Connection.{AsioTimer, NetworkConnection}
use toolchain_cpp.Connection.Timers.{create_timer, erase_timer, remove_timer}

erase_timer-append :
    (ts : List AsioTimer) (t : AsioTimer) (handle : ℕ) {others : List AsioTimer}
    → erase_timer ts handle ≡ some others
    → erase_timer (ts ++ t ∷ []) handle ≡ some (others ++ t ∷ [])
unfolding erase_timer
erase_timer-append [] t handle h = cc
erase_timer-append (x ∷ ts) t handle h = elim (Bool-cases (x.handle == handle)) [
  | inl same ↦ ground arith
  | inr other ↦ elim (Option-cases (erase_timer ts handle)) [
    | inl gone ↦ ground arith
    | inr (rest, found) ↦ ground (arith, erase_timer-append ts t handle found)
  ]
]

length-erase_timer :
    (ts : List AsioTimer) (handle : ℕ) {others : List AsioTimer}
    → erase_timer ts handle ≡ some others
    → length others + 1 ≡ length ts
unfolding erase_timer
length-erase_timer [] handle h = cc
length-erase_timer (x ∷ ts) handle h = elim (Bool-cases (x.handle == handle)) [
  | inl same ↦ ground arith
  | inr other ↦ elim (Option-cases (erase_timer ts handle)) [
    | inl gone ↦ ground arith
    | inr (rest, found) ↦ ground (arith, length-erase_timer ts handle found)
  ]
]

-- When the last timer has the handle that `create_timer` gave it and a timer before it is removed, `remove_timer` returns, the
-- last timer is still there, and the next `create_timer` returns its handle again.
pub create_timer-duplicate :
    (s : NetworkConnection) (ts others : List AsioTimer) (t : AsioTimer) (handle : ℕ)
    → s.timers ≡ ts ++ t ∷ []
    → t.handle ≡ length ts + 1
    → erase_timer ts handle ≡ some others
    → (s' : NetworkConnection) × (remove_timer s handle ≡ ok s')
      × (s'.timers ≡ others ++ t ∷ [])
      × ((create_timer s').1 ≡ t.handle)
unfolding create_timer remove_timer
create_timer-duplicate s ts others t handle h k e =
    let left : erase_timer s.timers handle ≡ some (others ++ t ∷ []) =
      rw h (erase_timer-append ts t handle e) in
    let count = length-erase_timer ts handle e in
    (
      record s { timers = others ++ t ∷ [] },
      simp (remove_timer, left) refl,
      refl,
      rw (length-append others (t ∷ [])) (omega arith),
    )
