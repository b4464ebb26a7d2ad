-- ===== src/Connection/Examples.antt =====
-- A host whose loop is run, stopped and served.
use toolchain_cpp.Common.{ℕ, true, false, [], none, some, ◌≡◌, refl, codes, ok}
use toolchain_cpp.Connection.{
  AsioTimer, NetworkConnection, initial, idle, connect_abort, reset_error_status, set_error_status,
}
use toolchain_cpp.Connection.Errors.{SameError, handle-SameError}
use toolchain_cpp.Connection.Finishing.{LoopEnds, stop-LoopEnds}
use toolchain_cpp.Connection.Handlers.{connection_reset, no_error, asio_read_handler}
use toolchain_cpp.Connection.Lifecycle.{begin_stop}
use toolchain_cpp.Connection.Loop.{
  read_done, handle, World, at, testing, preparing, posting, serving, finished, not_called,
  returned, enter, break, prepare, post, loop, stop_flags, stop_closes, Steps, none_more, then_step,
}
use toolchain_cpp.Connection.Returning.{serving-Returns}
use toolchain_cpp.Connection.Session.{
  close_current_session, open_log_file, setup_session_resources, post_connection_task_to_io_service,
}
use toolchain_cpp.Connection.Timers.{cancel_all_timers, attach_timers_to_io_service}

abbrev host : NetworkConnection
host = initial [] false idle

abbrev opened : NetworkConnection
opened = reset_error_status host

abbrev flagged_host : NetworkConnection
flagged_host = record (begin_stop opened) { full_stop_flag = true }

-- `stop` is called while the loop waits for the mutex.
abbrev stopped_world : World
stopped_world = at preparing returned (close_current_session flagged_host)

host_opened : open_log_file (reset_error_status host) true ≡ ok opened
unfolding open_log_file reset_error_status
host_opened = refl

to_stopped : Steps 3 (at testing not_called host) stopped_world
to_stopped =
    then_step 2 _ _ _
      (loop not_called testing preparing host opened (enter host opened true refl host_opened))
      (then_step 1 _ _ _ (stop_flags preparing opened)
        (then_step 0 _ _ _ (stop_closes preparing flagged_host) (none_more _)))

stop-LoopEnds_example : LoopEnds 1 (at finished returned (close_current_session flagged_host))
unfolding close_current_session cancel_all_timers
stop-LoopEnds_example =
    stop-LoopEnds host 3 1 stopped_world (at finished returned (close_current_session flagged_host))
      to_stopped refl
      (then_step 0 _ _ _
        (loop returned preparing finished _ _ (break (close_current_session flagged_host) refl))
        (none_more _))

abbrev served : NetworkConnection
served = record (post_connection_task_to_io_service (setup_session_resources opened)) {
  first_connection = false;
}

to_serving : Steps 3 (at testing not_called host) (at serving not_called served)
unfolding reset_error_status
to_serving =
    then_step 2 _ _ _
      (loop not_called testing preparing host opened (enter host opened true refl host_opened))
      (then_step 1 _ _ _
        (loop not_called preparing posting opened (setup_session_resources opened)
          (prepare opened refl))
        (then_step 0 _ _ _
          (loop not_called posting serving (setup_session_resources opened) served
            (post (setup_session_resources opened)))
          (none_more _)))

serving-Returns_example :
    (t : NetworkConnection) × (handle (some 512) served (read_done no_error (codes "x")) ≡ ok t)
unfolding reset_error_status setup_session_resources post_connection_task_to_io_service
    attach_timers_to_io_service
serving-Returns_example =
    serving-Returns host 3 (at serving not_called served) (some 512)
      (read_done no_error (codes "x")) to_serving refl refl

-- A session that the peer has reset.
abbrev failed_session : NetworkConnection
failed_session = record host {
  session_stop_flag = true;
  error_flag = true;
  error_status = connect_abort;
  error_message = codes "Connection reset by peer.";
}

abbrev after_second_error : NetworkConnection
after_second_error = close_current_session failed_session

second_error : handle none failed_session (read_done connection_reset []) ≡ ok after_second_error
unfolding handle asio_read_handler set_error_status close_current_session cancel_all_timers
second_error = refl

handle-SameError_example : SameError failed_session after_second_error
handle-SameError_example =
    handle-SameError none failed_session after_second_error (read_done connection_reset [])
      (record { ended = refl; flagged = refl }) second_error

abbrev timer : ℕ → AsioTimer
timer n = record { handle = n; timer = none }
