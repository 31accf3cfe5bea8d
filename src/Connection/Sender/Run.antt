-- ===== src/Connection/Sender/Run.antt =====
-- A connection from its start, through any inputs, and the packets that it makes.
use icetunnel.Prelude.{
  ℕ, refl, sym, inr, true, List, [], ◌∷◌, ◌++◌, append-nil, append_assoc, if_case, All, subst,
}
use icetunnel.Packet.{hello, to_code, type_eq}
use icetunnel.Connection.{Input, new_connection, handle, disarm, run, initial}
use icetunnel.Connection.State.{
  Connection, Config, Env, is_udp_finished, on_udp_sent_buffer_changed,
}
use icetunnel.Connection.Build.{put_packet, put_size}
use icetunnel.Connection.Udp.{udp_resend}
use icetunnel.Connection.Side.{changed-Side, disarm-Side}
use icetunnel.Connection.Sender.{Sends, IsWhole, Side-Sends}
use icetunnel.Connection.Sender.Make.{put_packet-Sends, build_udp_packets-Sends}
use icetunnel.Connection.Sender.Close.{
  bytes_received, tcp_read-Sends, tcp_write-Sends, tcp_close-Sends, udp_close-Sends,
}
use icetunnel.Connection.Sender.Send.{udp_write-Sends, resend_loop-Sends}
use icetunnel.Connection.Sender.Control.{build_confirmations-IsSender, build_bye_bye-IsSender}
use icetunnel.Connection.Sender.Receive.{udp_read-Sends}

-- The bytes that one input takes from the TCP socket, and those that a list of inputs takes.
abbrev pub input_bytes : Env → Input → Connection → List ℕ
input_bytes env Input.tcp_reads c = bytes_received env c
input_bytes env input c = []

unfoldable pub tcp_input : List (Env × Input) → Connection → List ℕ
tcp_input [] c = []
tcp_input ((env, input) ∷ inputs) c =
    input_bytes env input (disarm input c) ++ tcp_input inputs (handle env input (disarm input c))

no_input : (input : List ℕ) (c : Connection) → Sends input c → Sends (input ++ []) c
no_input input c h = subst (λ t. Sends t c) (sym (append-nil input)) h

handle-Sends :
    (env : Env) (step : Input) (input : List ℕ) (c : Connection)
    → IsWhole env
    → Sends input c
    → Sends (input ++ input_bytes env step c) (handle env step c)
unfolding handle udp_resend
handle-Sends env Input.tcp_reads input c w h = tcp_read-Sends env input c h
handle-Sends env Input.tcp_writes input c w h = no_input input _ (tcp_write-Sends env input c h)
handle-Sends env (Input.tcp_closes error) input c w h =
    no_input input _ (tcp_close-Sends env error input c h)
handle-Sends env (Input.udp_writes planned) input c w h =
    no_input input _ (udp_write-Sends env planned input c w h)
handle-Sends env (Input.udp_closes error) input c w h =
    no_input input _ (udp_close-Sends env input c h)
handle-Sends env Input.builds_udp_packets input c w h =
    no_input input _ (build_udp_packets-Sends env true input c h)
handle-Sends env Input.builds_confirmations input c w (made, h) =
    no_input input _ (made, build_confirmations-IsSender env made input c h)
handle-Sends env Input.builds_bye_bye input c w (made, h) =
    no_input input _ (made, build_bye_bye-IsSender env made input c h)
handle-Sends env Input.udp_resends input c w (made, h) = no_input input _ (
    if_case (Sends input) c.udp_connected _ c
      (λ on. resend_loop-Sends env c.udp_sent_packets made input c h.queued.packets h)
      (λ off. (made, h)))
handle-Sends env Input.udp_close_waits input c w h = no_input input _ (
    if_case (Sends input) (is_udp_finished c) _ c (λ done. udp_close-Sends env input c h)
      (λ more. h))
handle-Sends env Input.closes input c w h = no_input input c h
handle-Sends env (Input.udp_reads bytes) input c w h =
    no_input input _ (udp_read-Sends env bytes input c h)

abbrev pub IsWholeInput : Env × Input → Type 0
IsWholeInput (env, input) = IsWhole env

pub run-Sends :
    (inputs : List (Env × Input)) (input : List ℕ) (c : Connection)
    → All IsWholeInput inputs
    → Sends input c
    → Sends (input ++ tcp_input inputs c) (run inputs c)
unfolding run tcp_input
run-Sends [] input c w h = no_input input c h
run-Sends ((env, step) ∷ inputs) input c (w, ws) h =
    let d = disarm step c in
    let now = handle-Sends env step input d w (Side-Sends (disarm-Side step c) h) in
    let more = input_bytes env step d in
    let rest = tcp_input inputs (handle env step d) in
    subst (λ t. Sends t (run inputs (handle env step d))) (append_assoc input more rest)
      (run-Sends inputs (input ++ more) (handle env step d) ws now)

pub new_connection-Sends :
    (env : Env) (config : Config) (us : ℕ) → Sends [] (new_connection env config us)
unfolding new_connection type_eq to_code
new_connection-Sends env config us =
    let start = initial config env.now us in
    let empty : Sends [] start = (
      [],
      record {
        queued = record {
          count = refl;
          indexed = λ k b e small. cc;
          packets = tt;
          control = tt;
          output = tt;
        };
        rest = [];
        text = refl;
        left = inr refl;
      },
    ) in
    let put = put_packet-Sends hello [] start tt refl empty in
    let queued =
      on_udp_sent_buffer_changed env (put_size hello [] start) (put_packet hello [] start) in
    let changed : Sends [] queued = Side-Sends (changed-Side env _ _) put in
    Side-Sends {c = queued}
      (record {
        next = refl;
        packets = refl;
        control = refl;
        output = refl;
        received = refl;
        connected = refl;
        master = refl;
        final = refl;
      })
      changed
