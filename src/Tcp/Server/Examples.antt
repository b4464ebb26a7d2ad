-- ===== src/Tcp/Server/Examples.antt =====
-- Servers on which the theorems are applied.
use toolchain_cpp.Common.{◌≡◌, refl, true, false, [], ◌∷◌, some, ok}
use toolchain_cpp.Tcp.Session.{TcpSession, is_close}
use toolchain_cpp.Tcp.Session
use toolchain_cpp.Tcp.Server.{
  TcpServer, initial, begin_stop, end_stop, stop, init, close_server, asio_accept_handler, accepted,
  remove_close_sessions,
}
use toolchain_cpp.Tcp.Server
use toolchain_cpp.Tcp.Server.Loop.{
  Place, testing, starting, serving, closing, checking, finished, enter, start, stop_begins,
  stop_ends, serve_ends, close, break, Steps, none_more, then_step, finished_without_sessions,
}
use toolchain_cpp.Tcp.Server.Stopping.{Finishes, stop-Finishes}
use toolchain_cpp.Tcp.Server.Lifecycle.{call, calls, run_async, join, end_run}

abbrev session : TcpSession
session = Session.initial

abbrev closed : TcpSession
closed = record session { is_close_flag = true; socket = false }

abbrev serving_server : TcpServer
serving_server = record initial {
  server_is_run = true;
  io_service = some false;
  acceptor = true;
  sessions = closed ∷ session ∷ [];
  new_session = some session;
}

abbrev served : TcpServer
served = stop (init session initial)

finishes : Steps session (testing, initial) (finished, close_server served)
unfolding init stop begin_stop end_stop close_server
finishes =
    then_step _ (starting, initial) _ (enter initial refl)
      (then_step _ (serving, init session initial) _ (start initial)
        (then_step _ (serving, begin_stop (init session initial)) _
          (stop_begins serving (init session initial))
          (then_step _ (serving, served) _ (stop_ends serving (begin_stop (init session initial)))
            (then_step _ (closing, served) _ (serve_ends served refl)
              (then_step _ (checking, close_server served) _ (close served)
                (then_step _ (finished, close_server served) _ (break (close_server served) refl)
                  (none_more _)))))))

finished_without_sessions_example :
    ((close_server served).sessions ≡ [])
    × ((close_server served).full_stop_flag ≡ true)
    × ((close_server served).server_is_run ≡ false)
finished_without_sessions_example =
    finished_without_sessions session initial (close_server served) refl refl finishes

stop-Finishes_example : Finishes session (closing, stop serving_server)
unfolding stop begin_stop end_stop
stop-Finishes_example =
    stop-Finishes session serving_server false (closing, stop serving_server)
      (record { stopped = λ e. cc; at = refl }) refl
      (then_step _ (closing, stop serving_server) _ (serve_ends (stop serving_server) refl)
        (none_more _))

-- A server that serves after a `stop` that was lost.
abbrev lost_server : TcpServer
lost_server = record serving_server { full_stop_flag = true }

abbrev stopping_again : Place × TcpServer
stopping_again = (serving, begin_stop lost_server)

abbrev running : TcpServer
running = record initial { is_clean_to_run = false; thread_is_run = true; async_thread = true }

abbrev ended : TcpServer
ended = record running { thread_is_run = false; async_thread = false }

run_async_lem : call initial run_async ≡ ok running
unfolding call Server.run_async
run_async_lem = refl

ended_lem : calls running (end_run ∷ join ∷ []) ≡ ok ended
unfolding calls call Server.end_run Server.join
ended_lem = refl

abbrev reading : TcpSession
reading = record session { reads = 1 }

abbrev accepted_server : TcpServer
accepted_server = record serving_server { sessions = session ∷ reading ∷ [] }

accept_lem : asio_accept_handler session serving_server false ≡ ok accepted_server
unfolding asio_accept_handler accepted remove_close_sessions Session.open_async_read
    Session.reset_connection_timeout
accept_lem = refl
