-- ===== src/Connection/Timers.antt =====
-- network/network-connection.cpp and network/asio-timer.cpp: the timers of a connection.
use toolchain_cpp.Common.{
  ℕ, ◌+◌, List, [], ◌∷◌, ◌++◌, Option, none, some, ◌==◌, if◌then◌else◌, length, map, Result, ok,
  raised, aborted, ◌>>=◌, ◌>>◌, af_assert,
}
use toolchain_cpp.Common.Int.{ℤ, pos, leb_ℤ}
use toolchain_cpp.Connection.{AsioTimer, NetworkConnection}

abbrev pub assign_io_service : AsioTimer → AsioTimer
assign_io_service t = record t { timer = some 0 }

abbrev pub detach_from_io_service : AsioTimer → AsioTimer
detach_from_io_service t = record t { timer = none }

-- Cancelled waits end with an error code.
abbrev pub cancel : AsioTimer → AsioTimer
cancel t = elim (t.timer) [ none ↦ t | some waits ↦ record t { timer = some 0 } ]

-- `timer_handler` is set by the constructor.
unfoldable pub restart : AsioTimer → ℤ → Result AsioTimer
restart t timeout_ms =
    af_assert (leb_ℤ (pos 0) timeout_ms)
    >> elim (t.timer) [ none ↦ aborted | some waits ↦ ok (record t { timer = some 1 }) ]

unfoldable pub create_timer : NetworkConnection → NetworkConnection × ℕ
create_timer s =
    let handle = length s.timers + 1 in
    (record s { timers = s.timers ++ (record { handle = handle; timer = none }) ∷ [] }, handle)

-- The loop of `remove_timer`, and that of `restart_timer`; none is a handle that is not there.
unfoldable pub erase_timer : List AsioTimer → ℕ → Option (List AsioTimer)
erase_timer [] handle = none
erase_timer (t ∷ ts) handle =
    let rest = erase_timer ts handle in
    if t.handle == handle
    then some ts
    else elim rest [ none ↦ none | some others ↦ some (t ∷ others) ]

unfoldable pub remove_timer : NetworkConnection → ℕ → Result NetworkConnection
remove_timer s handle = elim (erase_timer s.timers handle) [
  | none ↦ raised
  | some timers ↦ ok (record s { timers = timers })
]

unfoldable pub restart_first : List AsioTimer → ℕ → ℤ → Result (List AsioTimer)
restart_first [] handle timeout_ms = raised
restart_first (t ∷ ts) handle timeout_ms =
    let rest = restart_first ts handle timeout_ms in
    if t.handle == handle
    then (restart t timeout_ms >>= λ t'. ok (t' ∷ ts))
    else rest >>= λ others. ok (t ∷ others)

unfoldable pub restart_timer : NetworkConnection → ℕ → ℤ → Result NetworkConnection
restart_timer s handle timeout_ms =
    af_assert (leb_ℤ (pos 0) timeout_ms)
    >> (restart_first s.timers handle timeout_ms >>= λ timers. ok (record s { timers = timers }))

unfoldable pub remove_all_timers : NetworkConnection → NetworkConnection
remove_all_timers s = record s { timers = [] }

unfoldable pub cancel_all_timers : NetworkConnection → NetworkConnection
cancel_all_timers s = record s { timers = map cancel s.timers }

unfoldable pub attach_timers_to_io_service : NetworkConnection → NetworkConnection
attach_timers_to_io_service s = record s { timers = map assign_io_service s.timers }

unfoldable pub detach_timers_from_io_service : NetworkConnection → NetworkConnection
detach_timers_from_io_service s = record s { timers = map detach_from_io_service s.timers }
