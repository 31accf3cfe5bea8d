-- ===== src/Connection/Sender/Tunnel.antt =====
-- The two ends of the tunnel: what one connection reads, and what the other writes.
use icetunnel.Prelude.{
  ℕ, zero, suc, ◌^◌, ◌<◌, ◌≤◌, ◌≡◌, refl, sym, ap, ◌∙◌, true, some, List, [], ◌∷◌, ◌++◌,
  append_assoc, arith, All, All-mono, get_elem?, get_or, drop, length, subst,
}
use icetunnel.Packet.{get_type, get_index, get_data}
use icetunnel.Connection.{Input, new_connection, run}
use icetunnel.Connection.State.{Connection, Config, Env}
use icetunnel.Connection.Delivery.{IsPrefix, text, payload}
use icetunnel.Connection.Delivery.Receive.{is_stream_type}
use icetunnel.Connection.Delivery.Run.{IsGenuineInput, run_delivers}
use icetunnel.Connection.Sender.{IsMadeDatagram, IsSender, all_text}
use icetunnel.Connection.Sender.Run.{IsWholeInput, tcp_input, run-Sends, new_connection-Sends}

-- A datagram of the stream that comes in is one of those that the other side has sent.
abbrev pub IsSentInput : List (List ℕ) → Env × Input → Type 0
IsSentInput output (env, Input.udp_reads bytes) =
    is_stream_type (get_type bytes) ≡ true → (i : ℕ) × (get_elem? output i ≡ some bytes)
IsSentInput output (env, input) = Unit {0}

abbrev pub stream_of : List (List ℕ) → ℕ → List ℕ
stream_of made k = get_or made k []

payload_empty : payload [] ≡ []
unfolding get_type get_data
payload_empty = ground arith

all_text-drop :
    (made : List (List ℕ)) (n : ℕ)
    → payload (get_or made n []) ++ all_text (drop (suc n) made) ≡ all_text (drop n made)
all_text-drop [] zero = ap (λ b. b ++ []) payload_empty
all_text-drop [] (suc n) = ap (λ b. b ++ []) payload_empty
all_text-drop (x ∷ made) zero = refl
all_text-drop (x ∷ made) (suc n) = all_text-drop made n

text-all_text :
    (made : List (List ℕ)) (n : ℕ)
    → text (stream_of made) n ++ all_text (drop n made) ≡ all_text made
text-all_text made zero = refl
text-all_text made (suc n) =
    append_assoc (text (stream_of made) n) (payload (stream_of made n))
      (all_text (drop (suc n) made))
    ∙ ap (λ t. text (stream_of made) n ++ t) (all_text-drop made n)
    ∙ text-all_text made n

All-get_elem? :
    (P : List ℕ → Type 0) (xs : List (List ℕ)) (i : ℕ) (x : List ℕ)
    → All P xs
    → get_elem? xs i ≡ some x
    → P x
All-get_elem? P [] i x h e = cc
All-get_elem? P (y ∷ xs) zero x (p, h) e = let same : y ≡ x = cc e in subst P same p
All-get_elem? P (y ∷ xs) (suc i) x (p, h) e = All-get_elem? P xs i x h e

get_elem?-get_or :
    (xs : List (List ℕ)) (k : ℕ) (x : List ℕ)
    → get_elem? xs k ≡ some x
    → (k < length xs) × (get_or xs k [] ≡ x)
get_elem?-get_or [] k x e = cc
get_elem?-get_or (y ∷ xs) zero x e = (omega arith, cc e)
get_elem?-get_or (y ∷ xs) (suc k) x e =
    let (small, same) = get_elem?-get_or xs k x e in (omega (arith, small), same)

-- What has been sent is genuine.
sent-IsGenuineInput :
    (made : List (List ℕ)) (input : List ℕ) (c : Connection) (step : Env × Input)
    → IsSender made input c
    → c.udp_next_send_index ≤ 2 ^ 32
    → IsSentInput c.udp_output step
    → IsGenuineInput (stream_of made) step
sent-IsGenuineInput made input c (env, Input.udp_reads bytes) h small sent = λ stream.
    let (i, e) = sent stream in
    let (k, made_at) =
      All-get_elem? (IsMadeDatagram made) c.udp_output i bytes h.queued.output e stream in
    let (below, same) = get_elem?-get_or made k bytes made_at in
    let index : get_index bytes ≡ k =
      h.queued.indexed k bytes made_at (omega (arith, below, h.queued.count, small)) in
    sym same ∙ ap (stream_of made) (sym index)
sent-IsGenuineInput made input c (env, Input.tcp_reads) h small sent = tt
sent-IsGenuineInput made input c (env, Input.tcp_writes) h small sent = tt
sent-IsGenuineInput made input c (env, Input.tcp_closes error) h small sent = tt
sent-IsGenuineInput made input c (env, Input.udp_writes planned) h small sent = tt
sent-IsGenuineInput made input c (env, Input.udp_closes error) h small sent = tt
sent-IsGenuineInput made input c (env, Input.builds_udp_packets) h small sent = tt
sent-IsGenuineInput made input c (env, Input.builds_confirmations) h small sent = tt
sent-IsGenuineInput made input c (env, Input.builds_bye_bye) h small sent = tt
sent-IsGenuineInput made input c (env, Input.udp_resends) h small sent = tt
sent-IsGenuineInput made input c (env, Input.udp_close_waits) h small sent = tt
sent-IsGenuineInput made input c (env, Input.closes) h small sent = tt

prefix_of_input :
    (made : List (List ℕ)) (input output : List ℕ) (c : Connection)
    → IsSender made input c
    → IsPrefix (stream_of made) output
    → (rest : List ℕ) × (output ++ rest ≡ input)
prefix_of_input made input output c h (n, rest, e) =
    let step : output ++ (rest ++ (all_text (drop n made) ++ h.rest)) ≡ input =
      sym (append_assoc output rest (all_text (drop n made) ++ h.rest))
      ∙ ap (λ t. t ++ (all_text (drop n made) ++ h.rest)) e
      ∙ sym (append_assoc (text (stream_of made) n) (all_text (drop n made)) h.rest)
      ∙ ap (λ t. t ++ h.rest) (text-all_text made n)
      ∙ h.text in
    (rest ++ (all_text (drop n made) ++ h.rest), step)

-- A connection that has lived through the inputs.
abbrev pub lived : Env → Config → ℕ → List (Env × Input) → Connection
lived start config us inputs = run inputs (new_connection start config us)

-- Two connections, from their constructors on, through any inputs: what the second has written to its
-- TCP socket is a beginning of what the first has read from its own, with nothing left out, repeated
-- or changed. The conditions: each datagram of the stream that the second gets is one that the first
-- has sent (they may be lost, repeated and out of order, and confirmations may be anything), the
-- system takes the datagrams of the first whole or not at all, and the first has made at most 2^32
-- packets.
pub tunnel_delivers :
    (start start' : Env) (config config' : Config) (us us' : ℕ)
    (inputs inputs' : List (Env × Input))
    → All IsWholeInput inputs
    → (lived start config us inputs).udp_next_send_index ≤ 2 ^ 32
    → All (IsSentInput (lived start config us inputs).udp_output) inputs'
    → (rest : List ℕ) × ((lived start' config' us' inputs').tcp_output ++ rest
        ≡ tcp_input inputs (new_connection start config us))
tunnel_delivers start start' config config' us us' inputs inputs' whole small sent =
    let first = new_connection start config us in
    let sender = run inputs first in
    let (made, h) = run-Sends inputs [] first whole (new_connection-Sends start config us) in
    prefix_of_input made (tcp_input inputs first) _ sender h (
      run_delivers (stream_of made) start' config' us' inputs' (
        All-mono (λ step. sent-IsGenuineInput made (tcp_input inputs first) sender step h small)
          inputs' sent))
