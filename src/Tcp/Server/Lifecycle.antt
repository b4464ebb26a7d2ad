-- ===== src/Tcp/Server/Lifecycle.antt =====
-- A server runs once between two calls of `reset`.
use toolchain_cpp.Common.{
  ◌≡◌, ◌⊎◌, refl, arith, true, false, List, [], ◌∷◌, Result, ok, raised, ◌>>=◌, bind-Passes,
}
use toolchain_cpp.Tcp.Server.{TcpServer, asio_accept_handler, accepted, remove_close_sessions}
use toolchain_cpp.Tcp.Server

-- The public methods but `reset`, and the ends of `run` and of the thread.
pub data Call : Type 0 where
  run_async run stop join shutdown end_run : Call

unfoldable pub call : TcpServer → Call → Result TcpServer
call s run_async = Server.run_async s
call s run = Server.start_run s
call s stop = ok (Server.stop s)
call s join = ok (Server.join s)
call s shutdown = ok (Server.shutdown s)
call s end_run = ok (Server.end_run s)

unfoldable pub calls : TcpServer → List Call → Result TcpServer
calls s [] = ok s
calls s (c ∷ cs) = call s c >>= λ s'. calls s' cs

call-is_clean_to_run :
    (s s' : TcpServer) (c : Call)
    → s.is_clean_to_run ≡ false
    → call s c ≡ ok s'
    → s'.is_clean_to_run ≡ false
unfolding call Server.run_async Server.start_run Server.stop Server.join Server.shutdown
    Server.end_run
call-is_clean_to_run s s' run_async h e = ground arith
call-is_clean_to_run s s' run h e = ground arith
call-is_clean_to_run s s' stop h e = ground arith
call-is_clean_to_run s s' join h e = ground arith
call-is_clean_to_run s s' shutdown h e = ground arith
call-is_clean_to_run s s' end_run h e = ground arith

calls-is_clean_to_run :
    (s s' : TcpServer) (cs : List Call)
    → s.is_clean_to_run ≡ false
    → calls s cs ≡ ok s'
    → s'.is_clean_to_run ≡ false
unfolding calls
calls-is_clean_to_run s s' [] h e = ground arith
calls-is_clean_to_run s s' (c ∷ cs) h e =
    let p = bind-Passes (λ t. calls t cs) (call s c) e in
    calls-is_clean_to_run p.between s' cs (call-is_clean_to_run s p.between c h p.before) p.after

first-is_clean_to_run :
    (s t : TcpServer) (first : Call)
    → (first ≡ run) ⊎ (first ≡ run_async) ⊎ (first ≡ stop)
    → call s first ≡ ok t
    → t.is_clean_to_run ≡ false
unfolding call Server.run_async Server.start_run Server.stop
first-is_clean_to_run s t run_async which e = ground arith
first-is_clean_to_run s t run which e = ground arith
first-is_clean_to_run s t stop which e = ground arith
first-is_clean_to_run s t join which e = ground arith
first-is_clean_to_run s t shutdown which e = ground arith
first-is_clean_to_run s t end_run which e = ground arith

-- After `stop`, or after a `run` or `run_async` that was not refused, every call of `run` and of `run_async`
-- throws, whatever is called in between, with the exception of `reset`; once no thread exists, `reset` makes
-- both possible again.
pub runs_once :
    (s t u : TcpServer) (first : Call) (cs : List Call)
    → (first ≡ run) ⊎ (first ≡ run_async) ⊎ (first ≡ stop)
    → call s first ≡ ok t
    → calls t cs ≡ ok u
    → (Server.run_async u ≡ raised)
      × (Server.start_run u ≡ raised)
      × ((v : TcpServer) × (Server.reset (Server.join u) ≡ ok v) × (v.is_clean_to_run ≡ true))
unfolding Server.run_async Server.start_run Server.reset Server.join
runs_once s t u first cs which e f =
    let h : u.is_clean_to_run ≡ false =
      calls-is_clean_to_run t u cs (first-is_clean_to_run s t first which e) f in
    (ground arith, ground arith, (_, refl, refl))
