-- ===== src/Socket/Calls/Closed.antt =====
-- A closed socket stays closed.
use icetunnel.Prelude.{
  ℕ, ◌+◌, ◌≡◌, ◌∙◌, Bool, true, false, not, ◌&&◌, Option, none, some, List, [], ◌∷◌, if◌then◌else◌,
  if_case, ◌==◌, arith, All,
}
use icetunnel.Address.{Address}
use icetunnel.Socket.{
  SocketType, read_source, write_source, close_read_source, close_write_source, close_source,
  set_error, Socket, Group, Outcome, done, again, interrupted, failed, get_ready, set_source,
  update_socket, close, close_read, close_write, read, write, writeto, readfrom, bind, connect,
  is_nil,
}
use icetunnel.Socket.Open.{
  Opening, Signals, has_type, is_open, construct, new_socket, destroy, accept, poll_socket,
  poll_loop, poll_wait_ms, poll,
}
use icetunnel.Socket.Flags.{get_ready-close, get_ready-update}
use icetunnel.Socket.Calls.{Call, apply_call, run_calls}
use icetunnel.Socket.{set_error}
use icetunnel.Socket.Flags.{get_ready-set_error, get_ready-set_source}
use icetunnel.Socket.Sound.{get_ready_half}
use icetunnel.Socket.Calls.Kept.{get_ready-destroy, get_ready-construct}

record IsClosed (i : ℕ) (g : Group) : Type 0 where
  closed : get_ready g i close_source ≡ true

set_read-IsClosed :
    (i j : ℕ) (value : Bool) (g : Group)
    → IsClosed i g
    → IsClosed i (set_source j read_source value g)
set_read-IsClosed i j value g h = record {
  closed = ground (arith, get_ready-set_source j i read_source close_source value g, h.closed);
}

set_write-IsClosed :
    (i j : ℕ) (value : Bool) (g : Group)
    → IsClosed i g
    → IsClosed i (set_source j write_source value g)
set_write-IsClosed i j value g h = record {
  closed = ground (arith, get_ready-set_source j i write_source close_source value g, h.closed);
}

close-IsClosed : (error : Bool) (i j : ℕ) (g : Group) → IsClosed i g → IsClosed i (close error j g)
close-IsClosed error i j g h = record {
  closed = ground (arith, get_ready-close error j i close_source g, h.closed);
}

marked-IsClosed :
    (error : Bool) (i j : ℕ) (g : Group) → IsClosed i g → IsClosed i (set_error error j g)
marked-IsClosed error i j g h = record {
  closed = get_ready-set_error error j i close_source g ∙ h.closed;
}

close_read-IsClosed :
    (error : Bool) (i j : ℕ) (g : Group) → IsClosed i g → IsClosed i (close_read error j g)
unfolding close_read
close_read-IsClosed error i j g h =
    let m = set_error error j g in
    let hm = marked-IsClosed error i j g h in
    let half = set_source j close_read_source true (set_source j read_source false m) in
    let hh : IsClosed i half = record {
      closed =
          ground
            (arith, get_ready_half j i read_source close_read_source close_source m, hm.closed);
    } in
    if_case (IsClosed i) (get_ready m j close_read_source) m _ (λ was. hm)
      (λ new.
        if_case (IsClosed i) (get_ready half j close_write_source) _ half
          (λ both. close-IsClosed false i j half hh) (λ one. hh))

close_write-IsClosed :
    (error : Bool) (i j : ℕ) (g : Group) → IsClosed i g → IsClosed i (close_write error j g)
unfolding close_write
close_write-IsClosed error i j g h =
    let m = set_error error j g in
    let hm = marked-IsClosed error i j g h in
    let half = set_source j close_write_source true (set_source j write_source false m) in
    let hh : IsClosed i half = record {
      closed =
          ground
            (arith, get_ready_half j i write_source close_write_source close_source m, hm.closed);
    } in
    if_case (IsClosed i) (get_ready m j close_write_source) m _ (λ was. hm)
      (λ new.
        if_case (IsClosed i) (get_ready half j close_read_source) _ half
          (λ both. close-IsClosed false i j half hh) (λ one. hh))

update-IsClosed :
    (i j : ℕ) (s : Socket) (g : Group) → IsClosed i g → IsClosed i (update_socket j s g)
update-IsClosed i j s g h = record { closed = get_ready-update j i close_source s g ∙ h.closed }

destroy-IsClosed :
    (i j : ℕ) (g : Group) → (i == j) ≡ false → IsClosed i g → IsClosed i (destroy j g)
destroy-IsClosed i j g other h = record {
  closed = ground (arith, get_ready-destroy j i close_source g, other, h.closed);
}

new_socket-IsClosed :
    (opening : Opening) (type : SocketType) (size : ℕ) (given : Option ℕ) (i j : ℕ) (g : Group)
    → (i == j) ≡ false
    → IsClosed i g
    → IsClosed i (new_socket opening type size given j g)
unfolding new_socket
new_socket-IsClosed opening type size given i j g other h =
    let fd = if is_open given then given else if has_type type then opening.created else none in
    let start : Group =
      record (update_socket j
        (record {
          type = type;
          fd = fd;
          address_local = [];
          address_remote = [];
          last_client_index = 0;
          connected = is_open given;
          error = false;
          receive_address_size = size;
        })
        g) { count = g.count + 1; world = construct j g.world } in
    let flag : get_ready start i close_source
        ≡ (if i == j then false else get_ready g i close_source) =
      unfold get_ready in get_ready-construct j i close_source g.world in
    let hs : IsClosed i start = record { closed = ground (arith, flag, other, h.closed) } in
    let unregistered : Group = update_socket j (record (start.socket j) { fd = none }) start in
    if_case (IsClosed i) (not (is_open given) && not (has_type type)) start _ (λ unknown. hs)
      (λ known.
        if_case (IsClosed i) (not (is_open fd)) _ _ (λ none_made. close-IsClosed true i j start hs)
          (λ made.
            if_case (IsClosed i) (not opening.registered) _ _
              (λ no.
                close-IsClosed true i j unregistered
                  (update-IsClosed i j (record (start.socket j) { fd = none }) start hs))
              (λ yes.
                if_case (IsClosed i) (not opening.non_blocking) _ start
                  (λ blocks. close-IsClosed true i j start hs) (λ all. hs))))

accept-IsClosed :
    (outcome : Outcome (ℕ × Address)) (opening : Opening) (client i j : ℕ) (g : Group)
    → (i == client) ≡ false
    → IsClosed i g
    → IsClosed i (accept outcome opening client j g).0
unfolding accept
accept-IsClosed again opening client i j g other h = set_read-IsClosed i j false g h
accept-IsClosed interrupted opening client i j g other h = h
accept-IsClosed failed opening client i j g other h = h
accept-IsClosed (done (fd, address)) opening client i j g other h =
    let s = g.socket j in
    let s' : Socket = record s { last_client_index = s.last_client_index + 1 } in
    let counted = update_socket j s' g in
    let opened = new_socket opening s.type s.receive_address_size (some fd) client counted in
    let ho : IsClosed i opened =
      new_socket-IsClosed opening s.type s.receive_address_size (some fd) i client counted other
        (update-IsClosed i j s' g h) in
    let named : Socket = record (opened.socket client) {
      address_local = s.address_local;
      address_remote = address;
    } in
    if_case (λ (out : Group × Option ℕ). IsClosed i out.0) (get_ready opened client close_source) _
      _ (λ shut. destroy-IsClosed i client opened other ho)
      (λ opens'. update-IsClosed i client named opened ho)

read-IsClosed :
    (outcome : Outcome (List ℕ)) (i j : ℕ) (g : Group)
    → IsClosed i g
    → IsClosed i (read outcome j g).1
unfolding read
read-IsClosed outcome i j g h =
    if_case (λ (out : List ℕ × Group). IsClosed i out.1) (get_ready g j close_read_source) _ _
      (λ shut. h) (λ opens'. answer outcome)
  where
    answer :
        (o : Outcome (List ℕ))
        → let result : List ℕ × Group = elim o [
          | done bytes ↦ (bytes, if is_nil bytes then close_read false j g else g)
          | again ↦ ([], set_source j read_source false g)
          | interrupted ↦ ([], g)
          | failed ↦ ([], g)
        ] in
          IsClosed i result.1
    answer (done bytes) =
        if_case (IsClosed i) (is_nil bytes) _ g (λ end. close_read-IsClosed false i j g h)
          (λ more. h)
    answer again = set_read-IsClosed i j false g h
    answer interrupted = h
    answer failed = h

write-IsClosed :
    (outcome : Outcome ℕ) (i j : ℕ) (g : Group) → IsClosed i g → IsClosed i (write outcome j g).1
unfolding write
write-IsClosed outcome i j g h =
    if_case (λ (out : ℕ × Group). IsClosed i out.1) (get_ready g j close_write_source) _ _
      (λ shut. h) (λ opens'. answer outcome)
  where
    answer :
        (o : Outcome ℕ)
        → let result : ℕ × Group = elim o [
          | done size ↦ (size, g)
          | again ↦ (0, set_source j write_source false g)
          | interrupted ↦ (0, g)
          | failed ↦ (0, g)
        ] in
          IsClosed i result.1
    answer (done size) = h
    answer again = set_write-IsClosed i j false g h
    answer interrupted = h
    answer failed = h

readfrom-IsClosed :
    (outcome : Outcome (ℕ × List ℕ × Address)) (i j : ℕ) (g : Group)
    → IsClosed i g
    → IsClosed i (readfrom outcome j g).1
unfolding readfrom
readfrom-IsClosed outcome i j g h =
    if_case (λ (out : (ℕ × List ℕ × Option Address) × Group). IsClosed i out.1)
      (get_ready g j close_read_source) _ _ (λ shut. h) (λ opens'. answer outcome)
  where
    answer :
        (o : Outcome (ℕ × List ℕ × Address))
        → let result : (ℕ × List ℕ × Option Address) × Group = elim o [
          | done (size, bytes, address) ↦ ((size, bytes, some address), g)
          | again ↦ ((0, [], some []), set_source j read_source false g)
          | interrupted ↦ ((0, [], some []), g)
          | failed ↦ ((0, [], some []), g)
        ] in
          IsClosed i result.1
    answer (done (size, bytes, address)) = h
    answer again = set_read-IsClosed i j false g h
    answer interrupted = h
    answer failed = h

poll_socket-IsClosed :
    (signals : Signals) (i j : ℕ) (g : Group) → IsClosed i g → IsClosed i (poll_socket signals j g)
unfolding poll_socket
poll_socket-IsClosed signals i j g h =
    let hung = if (g.socket j).connected && signals.hung_up then close_write false j g else g in
    let h1 : IsClosed i hung =
      if_case (IsClosed i) ((g.socket j).connected && signals.hung_up) _ g
        (λ yes. close_write-IsClosed false i j g h) (λ no. h) in
    let broken = if signals.has_error then close_write true j hung else hung in
    let h2 : IsClosed i broken =
      if_case (IsClosed i) signals.has_error _ hung (λ yes. close_write-IsClosed true i j hung h1)
        (λ no. h1) in
    let h3 =
      if_case (IsClosed i) (not signals.can_read && get_ready broken j close_write_source) _ broken
        (λ yes. close_read-IsClosed false i j broken h2) (λ no. h2) in
    set_write-IsClosed i j _ _ (set_read-IsClosed i j _ _ h3)

poll_loop-IsClosed :
    (events : List (ℕ × Signals)) (i : ℕ) (g : Group)
    → IsClosed i g
    → IsClosed i (poll_loop events g)
unfolding poll_loop
poll_loop-IsClosed [] i g h = h
poll_loop-IsClosed ((j, signals) ∷ events) i g h =
    poll_loop-IsClosed events i _ (poll_socket-IsClosed signals i j g h)

-- A call that does not end the socket `i`, or put another one in its place.
abbrev pub IsOther : ℕ → ℕ × Call → Type 0
IsOther i (j, Call.opens opening type size given) = (i == j) ≡ false
IsOther i (j, Call.destroys) = (i == j) ≡ false
IsOther i (j, Call.accepts outcome opening client) = (i == client) ≡ false
IsOther i (j, call) = Unit {0}

apply_call-IsClosed :
    (i j : ℕ) (call : Call) (g : Group)
    → IsOther i (j, call)
    → IsClosed i g
    → IsClosed i (apply_call j call g)
unfolding apply_call bind connect poll writeto
apply_call-IsClosed i j (Call.opens opening type size given) g o h =
    new_socket-IsClosed opening type size given i j g o h
apply_call-IsClosed i j Call.destroys g o h = destroy-IsClosed i j g o h
apply_call-IsClosed i j (Call.binds address) g o h =
    update-IsClosed i j (record (g.socket j) { address_local = address }) g h
apply_call-IsClosed i j (Call.connects address) g o h =
    update-IsClosed i j (record (g.socket j) { connected = true; address_remote = address }) g h
apply_call-IsClosed i j (Call.closes error) g o h = close-IsClosed error i j g h
apply_call-IsClosed i j (Call.closes_read error) g o h = close_read-IsClosed error i j g h
apply_call-IsClosed i j (Call.closes_write error) g o h = close_write-IsClosed error i j g h
apply_call-IsClosed i j (Call.reads outcome) g o h = read-IsClosed outcome i j g h
apply_call-IsClosed i j (Call.writes outcome) g o h = write-IsClosed outcome i j g h
apply_call-IsClosed i j (Call.writes_to outcome) g o h = write-IsClosed outcome i j g h
apply_call-IsClosed i j (Call.reads_from outcome) g o h = readfrom-IsClosed outcome i j g h
apply_call-IsClosed i j (Call.accepts outcome opening client) g o h =
    accept-IsClosed outcome opening client i j g o h
apply_call-IsClosed i j (Call.polls wait duration_us draw) g o h =
    answer (wait (poll_wait_ms duration_us draw))
  where
    answer :
        (r : Option (List (ℕ × Signals)))
        → IsClosed i (elim r [ none ↦ g | some events ↦ poll_loop events g ])
    answer none = h
    answer (some events) = poll_loop-IsClosed events i g h

calls-IsClosed :
    (i : ℕ) (calls : List (ℕ × Call)) (g : Group)
    → All (IsOther i) calls
    → IsClosed i g
    → IsClosed i (run_calls calls g)
unfolding run_calls
calls-IsClosed i [] g o h = h
calls-IsClosed i ((j, call) ∷ calls) g (o, os) h =
    calls-IsClosed i calls _ os (apply_call-IsClosed i j call g o h)

-- A socket that is closed stays closed through any calls on any sockets, with any answers of the
-- system, as long as it is not destroyed and no new socket takes its place.
pub run_calls_closed :
    (i : ℕ) (calls : List (ℕ × Call)) (g : Group)
    → All (IsOther i) calls
    → get_ready g i close_source ≡ true
    → get_ready (run_calls calls g) i close_source ≡ true
run_calls_closed i calls g others e =
    (calls-IsClosed i calls g others (record { closed = e })).closed
