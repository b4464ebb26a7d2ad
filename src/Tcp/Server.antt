-- ===== src/Tcp/Server.antt =====
-- network/tcp-server.cpp: `TcpServer`. `io_service` is the flag `stopped` of the service, if there is one;
-- a session in the list is not null, since every session stems from `create_session`, a virtual method
-- whose result is a parameter. The debug messages and the log are left out.
pub mod Loop
pub mod Stopping
pub mod Lifecycle
pub mod Accepting
mod Examples
use toolchain_cpp.Common.{
  ℕ, Bool, true, false, ◌||◌, ◌&&◌, not, List, [], ◌∷◌, ◌++◌, Option, none, some, if◌then◌else◌,
  Result, ok, raised, undefined, ◌>>=◌, ◌>>◌, unless_throw,
}
use toolchain_cpp.Tcp.Session.{
  TcpSession, close_session, open_async_read, reset_connection_timeout, is_close,
}

pub record TcpServer : Type 0 where
  pub thread_is_run : Bool
  pub server_is_run : Bool
  pub is_clean_to_run : Bool
  pub shutdown_flag : Bool
  pub full_stop_flag : Bool
  pub async_thread : Bool
  pub io_service : Option Bool
  pub acceptor : Bool
  pub sessions : List TcpSession
  pub new_session : Option TcpSession

-- The constructor.
abbrev pub initial : TcpServer
initial = record {
  thread_is_run = false;
  server_is_run = false;
  is_clean_to_run = true;
  shutdown_flag = false;
  full_stop_flag = false;
  async_thread = false;
  io_service = none;
  acceptor = false;
  sessions = [];
  new_session = none;
}

-- `run_async` and `run` up to the main loop.
pub run_async : TcpServer → Result TcpServer
run_async s =
    unless_throw s.is_clean_to_run
    >> ok (record s { is_clean_to_run = false; thread_is_run = true; async_thread = true })

pub start_run : TcpServer → Result TcpServer
start_run s =
    unless_throw s.is_clean_to_run
    >> ok (record s { is_clean_to_run = false; thread_is_run = true })

-- What `run` and `async_loop` do after the main loop.
pub end_run : TcpServer → TcpServer
end_run s = record s { thread_is_run = false }

-- `if (io_service && !io_service->stopped()) io_service->stop();`
abbrev pub stop_service : Option Bool → Option Bool
stop_service none = none
stop_service (some stopped) = some true

-- `stop` holds no mutex: its last assignment is a step of its own.
pub begin_stop : TcpServer → TcpServer
begin_stop s = record s { is_clean_to_run = false; io_service = stop_service s.io_service }

pub end_stop : TcpServer → TcpServer
end_stop s = record s { full_stop_flag = true }

pub stop : TcpServer → TcpServer
unfolding begin_stop end_stop
stop s = end_stop (begin_stop s)

-- The thread has ended when `join` returns.
pub join : TcpServer → TcpServer
join s = record s { async_thread = false }

pub reset : TcpServer → Result TcpServer
reset s =
    unless_throw (not s.async_thread)
    >> ok (record s {
      new_session = none;
      sessions = [];
      thread_is_run = false;
      server_is_run = false;
      full_stop_flag = false;
      is_clean_to_run = true;
    })

pub shutdown : TcpServer → TcpServer
shutdown s = if s.shutdown_flag then s else record (stop s) {
  async_thread = false;
  acceptor = false;
  io_service = none;
  shutdown_flag = true;
}

pub close_server : TcpServer → TcpServer
close_server s =
    if not s.server_is_run
    then s
    else record s { sessions = []; acceptor = false; io_service = none; server_is_run = false }

unfoldable pub remove_close_sessions : List TcpSession → List TcpSession
remove_close_sessions [] = []
remove_close_sessions (session ∷ rest) =
    let tmp_sessions = remove_close_sessions rest in
    if is_close session then tmp_sessions else session ∷ tmp_sessions

module _ (create_session : TcpSession) where
  -- `init`, when none of the calls of boost::asio throws.
  pub init : TcpServer → TcpServer
  init s = record s {
    io_service = some false;
    acceptor = true;
    new_session = some create_session;
    server_is_run = true;
  }

  -- The connection that `asio_accept_handler` was called for joins the list, unless there was an error.
  pub accepted : TcpServer → TcpSession → Bool → Result TcpServer
  accepted s session ec =
      if ec
      then ok (record s { new_session = some (close_session session) })
      else open_async_read session >>= λ session'.
          ok (record s { sessions = s.sessions ++ reset_connection_timeout session' ∷ [] })

  pub asio_accept_handler : TcpServer → Bool → Result TcpServer
  asio_accept_handler s ec = elim (s.new_session) [
    | none ↦ undefined
    | some session ↦ accepted s session ec >>= λ s'.
        if s'.acceptor
        then ok (record s' {
          sessions = remove_close_sessions s'.sessions;
          new_session = some create_session;
        })
        else undefined
  ]
