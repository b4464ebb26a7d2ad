-- ===== src/Tcp/Session/Examples.antt =====
-- Sessions and servers on which the theorems are applied.
use toolchain_cpp.Common.{◌≡◌, refl, arith, true, false, [], ◌∷◌, ◌++◌, none, ok, codes}
use toolchain_cpp.Tcp.Session
use toolchain_cpp.Tcp.Session.{
  TcpSession, initial, async_send_string, async_send_data, write_package,
}
use toolchain_cpp.Tcp.Session.Transfer.{write_all}
use toolchain_cpp.Tcp.Session.Delivery.{async_send_string-Delivered}
use toolchain_cpp.Tcp.Session.Once.{
  call, calls, asio_write_handler, reset_connection_timeout, calls_send_nothing,
}

async_send_string-Delivered_example :
    (t u : TcpSession) × (async_send_string initial (codes "hello") ≡ ok (t, true))
    × (write_all 1 t ≡ ok u)
    × (u.wire ≡ codes "hello")
    × (u.after_sends ≡ 1)
    × (u.outgoing ≡ none)
async_send_string-Delivered_example =
    async_send_string-Delivered initial (codes "hello") 0 refl refl refl (omega arith)

abbrev sending : TcpSession
sending = write_package (record initial { async_send_flag = true; send_buffer = codes "hello" }) 0

abbrev sent : TcpSession
sent = record sending { send_buffer_cursor = 5; after_sends = 1 }

sending_lem : async_send_string initial (codes "hello") ≡ ok (sending, true)
unfolding async_send_string async_send_data
sending_lem = refl

sent_lem : calls sending (asio_write_handler false 5 5 ∷ reset_connection_timeout ∷ []) ≡ ok sent
unfolding calls call write_package Session.asio_write_handler Session.next_package
    Session.reset_connection_timeout
sent_lem = refl

calls_send_nothing_example :
    async_send_string sent (codes "!")
    ≡ ok (record sent { send_buffer = sent.send_buffer ++ codes "!" }, false)
calls_send_nothing_example =
    calls_send_nothing initial sending sent (codes "hello") (codes "!")
      (asio_write_handler false 5 5 ∷ reset_connection_timeout ∷ []) sending_lem sent_lem
