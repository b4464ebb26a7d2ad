-- ===== src/Connection/Loop.antt =====
-- `NetworkConnection::main_loop` as a thread of its own, whose steps interleave with one call of `stop` from
-- another thread. `stop` sets its flags and then closes the session under the mutex of the session's
-- resources, which the loop holds while it sets them up and while it cleans them up.
use toolchain_cpp.Common.{
  ℕ, ◌+◌, Bool, true, false, ◌&&◌, not, Option, some, Bytes, ◌≡◌, Result, ok, raised,
}
use toolchain_cpp.Connection.{NetworkConnection, reset_error_status}
use toolchain_cpp.Connection.Handlers.{
  ErrorCode, asio_accept_handler, asio_connect_handler, asio_read_handler, asio_write_handler,
  asio_signal_handler, asio_iddle_timer_handler,
}
use toolchain_cpp.Connection.Lifecycle.{begin_stop}
use toolchain_cpp.Connection.Session.{
  close_current_session, open_log_file, setup_session_resources, cleanup_session_resources,
  post_connection_task_to_io_service,
}

-- What the service reports.
pub data Event : Type 0 where
  accept_done connect_done : ErrorCode → Event
  read_done : ErrorCode → Bytes → Event
  write_done : ErrorCode → ℕ → ℕ → Event
  signal_done idle_wait_done : ErrorCode → Event

unfoldable pub handle : Option ℕ → NetworkConnection → Event → Result NetworkConnection
handle buffer s (accept_done ec) = asio_accept_handler buffer s ec
handle buffer s (connect_done ec) = asio_connect_handler buffer s ec
handle buffer s (read_done ec octets) = asio_read_handler buffer s ec octets
handle buffer s (write_done ec sent required) = ok (asio_write_handler s ec sent required)
handle buffer s (signal_done ec) = ok (asio_signal_handler s ec)
handle buffer s (idle_wait_done ec) = ok (asio_iddle_timer_handler s ec)

-- Where the loop stands: before its test, before the mutex, before the connection task, in `io_service->run()`,
-- behind it, before the test at the end, behind the loop, and where an exception has left it.
pub data Place : Type 0 where
  testing preparing posting serving ending checking finished failed : Place

-- How far `stop` has come.
pub data Stopper : Type 0 where
  not_called flagged returned : Stopper

pub record World : Type 0 where
  pub place : Place
  pub stopper : Stopper
  pub connection : NetworkConnection

abbrev pub at : Place → Stopper → NetworkConnection → World
at place stopper s = record { place = place; stopper = stopper; connection = s }

abbrev pub ended : NetworkConnection → NetworkConnection
ended s = cleanup_session_resources (record s { is_connected_flag = false })

-- The steps of the loop. `io_service->run()` also returns when there is nothing left to wait for.
pub data LoopStep (k : Stopper)
    : Place × NetworkConnection → Place × NetworkConnection → Type 0 where
  leave : (s : NetworkConnection) → s.full_stop_flag ≡ true → LoopStep k (testing, s) (finished, s)
  enter :
      (s t : NetworkConnection) (opens : Bool)
      → s.full_stop_flag ≡ false
      → open_log_file (reset_error_status s) opens ≡ ok t
      → LoopStep k (testing, s) (preparing, t)
  log_fails :
      (s : NetworkConnection) (opens : Bool)
      → s.full_stop_flag ≡ false
      → open_log_file (reset_error_status s) opens ≡ raised
      → LoopStep k (testing, s) (failed, reset_error_status s)
  break :
      (s : NetworkConnection) → s.full_stop_flag ≡ true → LoopStep k (preparing, s) (finished, s)
  prepare :
      (s : NetworkConnection)
      → s.full_stop_flag ≡ false
      → LoopStep k (preparing, s) (posting, setup_session_resources s)
  post :
      (s : NetworkConnection)
      → LoopStep k
          (posting, s)
          (serving, record (post_connection_task_to_io_service s) { first_connection = false })
  post_throws : (s : NetworkConnection) → LoopStep k (posting, s) (failed, s)
  serve :
      (s t : NetworkConnection) (buffer : Option ℕ) (e : Event)
      → s.io_service ≡ some false
      → handle buffer s e ≡ ok t
      → LoopStep k (serving, s) (serving, t)
  serve_ends : (s : NetworkConnection) → LoopStep k (serving, s) (ending, s)
  clean : (s : NetworkConnection) → LoopStep k (ending, s) (checking, ended s)
  repeat :
      (s : NetworkConnection)
      → (s.reconnection_flag && not s.full_stop_flag) ≡ true
      → LoopStep k (checking, s) (testing, s)
  finish :
      (s : NetworkConnection)
      → (s.reconnection_flag && not s.full_stop_flag) ≡ false
      → LoopStep k (checking, s) (finished, s)

pub data Step : World → World → Type 0 where
  loop :
      (k : Stopper) (p q : Place) (s t : NetworkConnection)
      → LoopStep k (p, s) (q, t)
      → Step (at p k s) (at q k t)
  stop_flags :
      (p : Place) (s : NetworkConnection)
      → Step (at p not_called s) (at p flagged (record (begin_stop s) { full_stop_flag = true }))
  stop_closes :
      (p : Place) (s : NetworkConnection)
      → Step (at p flagged s) (at p returned (close_current_session s))

pub data Steps : ℕ → World → World → Type 0 where
  none_more : (w : World) → Steps 0 w w
  then_step : (n : ℕ) (u v w : World) → Step u v → Steps n v w → Steps (n + 1) u w
