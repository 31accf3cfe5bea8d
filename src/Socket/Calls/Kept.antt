-- ===== src/Socket/Calls/Kept.antt =====
-- The operations of sockets keep the states of their sockets sound.
use icetunnel.Prelude.{
  ℕ, ◌+◌, ◌≡◌, refl, sym, ap, ◌∙◌, inl, inr, Bool, true, false, not, ◌&&◌, Option, none, some, List,
  [], ◌∷◌, if◌then◌else◌, if_case, ◌==◌, ==_iff, arith, ◌⊎◌, Bool-cases,
}
use icetunnel.Address.{Address}
use icetunnel.Event.{World, destroy_source}
use icetunnel.Event.Sources.{ready-destroy_source}
use icetunnel.Socket.{
  SocketType, Kind, read_source, write_source, close_read_source, close_write_source, close_source,
  set_error, Socket, Group, Outcome, done, again, interrupted, failed, source_of, get_ready,
  set_source, update_socket, close, close_read, close_write, read, write, writeto, readfrom, bind,
  connect, is_nil,
}
use icetunnel.Socket.Open.{
  Opening, Signals, has_type, is_open, construct, new_socket, destroy, accept, poll_socket,
  poll_loop, poll_wait_ms, poll,
}
use icetunnel.Socket.Flags.{kind_eq, closed_flag, get_ready-close, source_of-eq, get_ready-update}
use icetunnel.Socket.Sound.{
  IsSound, IsSoundGroup, close-IsSound, same-IsSound, set_read-IsSound, set_write-IsSound,
  close_read-IsSound, close_write-IsSound,
}
use icetunnel.Socket.Calls.{Call, apply_call, run_calls, new_group}

pub get_ready-destroy :
    (i j : ℕ) (k : Kind) (g : Group)
    → get_ready (destroy i g) j k ≡ (if j == i then false else get_ready g j k)
unfolding destroy get_ready
get_ready-destroy i j k g =
    let w0 = (close false i g).world in
    let w1 = destroy_source w0 (source_of i close_source) in
    let w2 = destroy_source w1 (source_of i close_write_source) in
    let w3 = destroy_source w2 (source_of i close_read_source) in
    let w4 = destroy_source w3 (source_of i write_source) in
    let same = λ (l : Kind). source_of-eq j i k l in
    let step = λ (w : World) (l : Kind).
      ready-destroy_source w (source_of i l) (source_of j k)
      ∙ ap (λ b. if b then false else (w.source (source_of j k)).ready) (same l) in
    steps k (get_ready g j k) (get_ready-close false i j k g) (step w0 close_source)
      (step w1 close_write_source) (step w2 close_read_source) (step w3 write_source)
      (step w4 read_source)
  where
    steps :
        (l : Kind) (h : Bool) {a b c d e f : Bool}
        → a ≡ (if j == i then closed_flag l else h)
        → b ≡ (if (j == i) && kind_eq l close_source then false else a)
        → c ≡ (if (j == i) && kind_eq l close_write_source then false else b)
        → d ≡ (if (j == i) && kind_eq l close_read_source then false else c)
        → e ≡ (if (j == i) && kind_eq l write_source then false else d)
        → f ≡ (if (j == i) && kind_eq l read_source then false else e)
        → f ≡ (if j == i then false else h)
    steps read_source h p q r s t u = ground (arith, p, q, r, s, t, u)
    steps write_source h p q r s t u = ground (arith, p, q, r, s, t, u)
    steps close_read_source h p q r s t u = ground (arith, p, q, r, s, t, u)
    steps close_write_source h p q r s t u = ground (arith, p, q, r, s, t, u)
    steps close_source h p q r s t u = ground (arith, p, q, r, s, t, u)

-- A socket whose sources are all down, beside sockets that are as they were.
down-IsSound :
    (i : ℕ) (g g' : Group)
    → ((j : ℕ) (k : Kind) → get_ready g' j k ≡ (if j == i then false else get_ready g j k))
    → ((j : ℕ) → (j == i) ≡ false → (g'.socket j).fd ≡ (g.socket j).fd)
    → IsSoundGroup g
    → IsSoundGroup g'
down-IsSound i g g' at fd h j = elim (Bool-cases (j == i)) [
  | inl same ↦ record {
    whole =
        ground (arith, at j close_source, at j close_read_source, at j close_write_source, same);
    no_read = λ e. ground (arith, at j read_source, same);
    no_write = λ e. ground (arith, at j write_source, same);
    no_fd = λ e. absurd (ground (arith, at j close_source, same, e));
  }
  | inr other ↦
      same-IsSound g g' j (λ k. at j k ∙ ap (λ b. if b then false else get_ready g j k) other)
        (fd j other) (h j)
]

destroy-IsSound : (i : ℕ) (g : Group) → IsSoundGroup g → IsSoundGroup (destroy i g)
destroy-IsSound i g h = down-IsSound i g (destroy i g) (λ j k. get_ready-destroy i j k g) fd h
  where
    fd : (j : ℕ) → (j == i) ≡ false → ((destroy i g).socket j).fd ≡ (g.socket j).fd
    fd j other =
        unfold destroy in
        unfold close in unfold set_source in unfold set_error in ground (arith, other)

pub get_ready-construct :
    (i j : ℕ) (k : Kind) (w : World)
    → ((construct i w).source (source_of j k)).ready
      ≡ (if j == i then false else (w.source (source_of j k)).ready)
unfolding construct
get_ready-construct i j k w =
    let same = λ (l : Kind). source_of-eq j i k l in
    steps k (same read_source) (same write_source) (same close_read_source)
      (same close_write_source) (same close_source)
  where
    steps :
        (l : Kind)
        → (source_of j k == source_of i read_source) ≡ ((j == i) && kind_eq l read_source)
        → (source_of j k == source_of i write_source) ≡ ((j == i) && kind_eq l write_source)
        → (source_of j k == source_of i close_read_source)
          ≡ ((j == i) && kind_eq l close_read_source)
        → (source_of j k == source_of i close_write_source)
          ≡ ((j == i) && kind_eq l close_write_source)
        → (source_of j k == source_of i close_source) ≡ ((j == i) && kind_eq l close_source)
        → ((construct i w).source (source_of j k)).ready
          ≡ (if j == i then false else (w.source (source_of j k)).ready)
    steps read_source p q r s t = unfold construct in ground (arith, p, q, r, s, t)
    steps write_source p q r s t = unfold construct in ground (arith, p, q, r, s, t)
    steps close_read_source p q r s t = unfold construct in ground (arith, p, q, r, s, t)
    steps close_write_source p q r s t = unfold construct in ground (arith, p, q, r, s, t)
    steps close_source p q r s t = unfold construct in ground (arith, p, q, r, s, t)

new_socket-IsSound :
    (opening : Opening) (type : SocketType) (size : ℕ) (given : Option ℕ) (i : ℕ) (g : Group)
    → IsSoundGroup g
    → IsSoundGroup (new_socket opening type size given i g)
unfolding new_socket
new_socket-IsSound opening type size given i g h =
    let fd = if is_open given then given else if has_type type then opening.created else none in
    let start : Group =
      record (update_socket i
        (record {
          type = type;
          fd = fd;
          address_local = [];
          address_remote = [];
          last_client_index = 0;
          connected = is_open given;
          error = false;
          receive_address_size = size;
        })
        g) { count = g.count + 1; world = construct i g.world } in
    let hs : IsSoundGroup start =
      down-IsSound i g start (λ j k. unfold get_ready in get_ready-construct i j k g.world)
        (λ j other. ground (arith, other)) h in
    let unregistered : Group = update_socket i (record (start.socket i) { fd = none }) start in
    let hu : (j : ℕ) → (j == i) ≡ false → IsSound unregistered j = λ j other.
      same-IsSound start unregistered j (λ k. get_ready-update i j k _ start)
        (ground (arith, other)) (hs j) in
    if_case IsSoundGroup (not (is_open given) && not (has_type type)) start _ (λ unknown. hs)
      (λ known.
        if_case IsSoundGroup (not (is_open fd)) _ _
          (λ none_made. close-IsSound true i start (λ j other. hs j))
          (λ made.
            if_case IsSoundGroup (not opening.registered) _ _
              (λ no. close-IsSound true i unregistered hu)
              (λ yes.
                if_case IsSoundGroup (not opening.non_blocking) _ start
                  (λ blocks. close-IsSound true i start (λ j other. hs j)) (λ all. hs))))

-- A socket gets other fields, but keeps its descriptor.
update-IsSound :
    (i : ℕ) (s : Socket) (g : Group)
    → s.fd ≡ (g.socket i).fd
    → IsSoundGroup g
    → IsSoundGroup (update_socket i s g)
update-IsSound i s g same h j =
    same-IsSound g (update_socket i s g) j (λ k. get_ready-update i j k s g)
      (fd (Bool-cases (j == i))) (h j)
  where
    fd :
        ((j == i) ≡ true) ⊎ ((j == i) ≡ false)
        → ((update_socket i s g).socket j).fd ≡ (g.socket j).fd
    fd (inl here) =
        ground (arith, here) ∙ same ∙ ap (λ n. (g.socket n).fd) (sym ((==_iff j i).0 here))
    fd (inr other) = ground (arith, other)

blocked_read-IsSound :
    (i : ℕ) (g : Group) → IsSoundGroup g → IsSoundGroup (set_source i read_source false g)
blocked_read-IsSound i g h = set_read-IsSound i false g (λ e. refl) h

accept-IsSound :
    (outcome : Outcome (ℕ × Address)) (opening : Opening) (client i : ℕ) (g : Group)
    → IsSoundGroup g
    → IsSoundGroup (accept outcome opening client i g).0
unfolding accept
accept-IsSound again opening client i g h = blocked_read-IsSound i g h
accept-IsSound interrupted opening client i g h = h
accept-IsSound failed opening client i g h = h
accept-IsSound (done (fd, address)) opening client i g h =
    let s = g.socket i in
    let s' : Socket = record s { last_client_index = s.last_client_index + 1 } in
    let counted = update_socket i s' g in
    let opened = new_socket opening s.type s.receive_address_size (some fd) client counted in
    let ho : IsSoundGroup opened =
      new_socket-IsSound opening s.type s.receive_address_size (some fd) client counted
        (update-IsSound i s' g refl h) in
    let named : Socket = record (opened.socket client) {
      address_local = s.address_local;
      address_remote = address;
    } in
    if_case (λ (out : Group × Option ℕ). IsSoundGroup out.0) (get_ready opened client close_source)
      _ _ (λ shut. destroy-IsSound client opened ho)
      (λ opens'. update-IsSound client named opened refl ho)

read-IsSound :
    (outcome : Outcome (List ℕ)) (i : ℕ) (g : Group)
    → IsSoundGroup g
    → IsSoundGroup (read outcome i g).1
unfolding read
read-IsSound outcome i g h =
    if_case (λ (out : List ℕ × Group). IsSoundGroup out.1) (get_ready g i close_read_source) _ _
      (λ shut. h) (λ opens'. answer outcome)
  where
    answer :
        (o : Outcome (List ℕ))
        → let result : List ℕ × Group = elim o [
          | done bytes ↦ (bytes, if is_nil bytes then close_read false i g else g)
          | again ↦ ([], set_source i read_source false g)
          | interrupted ↦ ([], g)
          | failed ↦ ([], g)
        ] in
          IsSoundGroup result.1
    answer (done bytes) =
        if_case IsSoundGroup (is_nil bytes) _ g (λ end. close_read-IsSound false i g h) (λ more. h)
    answer again = blocked_read-IsSound i g h
    answer interrupted = h
    answer failed = h

write-IsSound :
    (outcome : Outcome ℕ) (i : ℕ) (g : Group) → IsSoundGroup g → IsSoundGroup (write outcome i g).1
unfolding write
write-IsSound outcome i g h =
    if_case (λ (out : ℕ × Group). IsSoundGroup out.1) (get_ready g i close_write_source) _ _
      (λ shut. h) (λ opens'. answer outcome)
  where
    answer :
        (o : Outcome ℕ)
        → let result : ℕ × Group = elim o [
          | done size ↦ (size, g)
          | again ↦ (0, set_source i write_source false g)
          | interrupted ↦ (0, g)
          | failed ↦ (0, g)
        ] in
          IsSoundGroup result.1
    answer (done size) = h
    answer again = set_write-IsSound i false g (λ e. refl) h
    answer interrupted = h
    answer failed = h

readfrom-IsSound :
    (outcome : Outcome (ℕ × List ℕ × Address)) (i : ℕ) (g : Group)
    → IsSoundGroup g
    → IsSoundGroup (readfrom outcome i g).1
unfolding readfrom
readfrom-IsSound outcome i g h =
    if_case (λ (out : (ℕ × List ℕ × Option Address) × Group). IsSoundGroup out.1)
      (get_ready g i close_read_source) _ _ (λ shut. h) (λ opens'. answer outcome)
  where
    answer :
        (o : Outcome (ℕ × List ℕ × Address))
        → let result : (ℕ × List ℕ × Option Address) × Group = elim o [
          | done (size, bytes, address) ↦ ((size, bytes, some address), g)
          | again ↦ ((0, [], some []), set_source i read_source false g)
          | interrupted ↦ ((0, [], some []), g)
          | failed ↦ ((0, [], some []), g)
        ] in
          IsSoundGroup result.1
    answer (done (size, bytes, address)) = h
    answer again = blocked_read-IsSound i g h
    answer interrupted = h
    answer failed = h

poll_socket-IsSound :
    (signals : Signals) (i : ℕ) (g : Group)
    → IsSoundGroup g
    → IsSoundGroup (poll_socket signals i g)
unfolding poll_socket
poll_socket-IsSound signals i g h =
    let hung = if (g.socket i).connected && signals.hung_up then close_write false i g else g in
    let h1 : IsSoundGroup hung =
      if_case IsSoundGroup ((g.socket i).connected && signals.hung_up) _ g
        (λ yes. close_write-IsSound false i g h) (λ no. h) in
    let broken = if signals.has_error then close_write true i hung else hung in
    let h2 : IsSoundGroup broken =
      if_case IsSoundGroup signals.has_error _ hung (λ yes. close_write-IsSound true i hung h1)
        (λ no. h1) in
    let ends = not signals.can_read && get_ready broken i close_write_source in
    let ended = if ends then close_read false i broken else broken in
    let h3 : IsSoundGroup ended =
      if_case IsSoundGroup ends _ broken (λ yes. close_read-IsSound false i broken h2) (λ no. h2) in
    let can_read = not (get_ready ended i close_read_source) && signals.can_read in
    let readable = set_source i read_source can_read ended in
    let h4 : IsSoundGroup readable =
      set_read-IsSound i can_read ended (λ e. ground (arith, e)) h3 in
    set_write-IsSound i (not (get_ready readable i close_write_source) && signals.can_write)
      readable (λ e. ground (arith, e)) h4

poll_loop-IsSound :
    (events : List (ℕ × Signals)) (g : Group) → IsSoundGroup g → IsSoundGroup (poll_loop events g)
unfolding poll_loop
poll_loop-IsSound [] g h = h
poll_loop-IsSound ((i, signals) ∷ events) g h =
    poll_loop-IsSound events _ (poll_socket-IsSound signals i g h)

apply_call-IsSound :
    (i : ℕ) (call : Call) (g : Group) → IsSoundGroup g → IsSoundGroup (apply_call i call g)
unfolding apply_call bind connect poll writeto
apply_call-IsSound i (Call.opens opening type size given) g h =
    new_socket-IsSound opening type size given i g h
apply_call-IsSound i Call.destroys g h = destroy-IsSound i g h
apply_call-IsSound i (Call.binds address) g h =
    update-IsSound i (record (g.socket i) { address_local = address }) g refl h
apply_call-IsSound i (Call.connects address) g h =
    update-IsSound i (record (g.socket i) { connected = true; address_remote = address }) g refl h
apply_call-IsSound i (Call.closes error) g h = close-IsSound error i g (λ j other. h j)
apply_call-IsSound i (Call.closes_read error) g h = close_read-IsSound error i g h
apply_call-IsSound i (Call.closes_write error) g h = close_write-IsSound error i g h
apply_call-IsSound i (Call.reads outcome) g h = read-IsSound outcome i g h
apply_call-IsSound i (Call.writes outcome) g h = write-IsSound outcome i g h
apply_call-IsSound i (Call.writes_to outcome) g h = write-IsSound outcome i g h
apply_call-IsSound i (Call.reads_from outcome) g h = readfrom-IsSound outcome i g h
apply_call-IsSound i (Call.accepts outcome opening client) g h =
    accept-IsSound outcome opening client i g h
apply_call-IsSound i (Call.polls wait duration_us draw) g h =
    answer (wait (poll_wait_ms duration_us draw))
  where
    answer :
        (o : Option (List (ℕ × Signals)))
        → IsSoundGroup (elim o [ none ↦ g | some events ↦ poll_loop events g ])
    answer none = h
    answer (some events) = poll_loop-IsSound events g h

run_calls-IsSound' :
    (calls : List (ℕ × Call)) (g : Group) → IsSoundGroup g → IsSoundGroup (run_calls calls g)
unfolding run_calls
run_calls-IsSound' [] g h = h
run_calls-IsSound' ((i, call) ∷ calls) g h =
    run_calls-IsSound' calls _ (apply_call-IsSound i call g h)

new_group-IsSound : IsSoundGroup new_group
unfolding get_ready
new_group-IsSound j = record {
  whole = refl;
  no_read = λ e. refl;
  no_write = λ e. refl;
  no_fd = λ e. refl;
}

-- After any calls on any sockets, with any answers of the system, every socket is closed exactly if
-- both of its directions are; a closed direction is not ready, and a closed socket has no descriptor.
pub run_calls-IsSound : (calls : List (ℕ × Call)) → IsSoundGroup (run_calls calls new_group)
run_calls-IsSound calls = run_calls-IsSound' calls new_group new_group-IsSound
