-- ===== src/Socket/Flags.antt =====
-- The flags of the five sources of a socket, after each operation.
use icetunnel.Prelude.{
  ℕ, ◌<◌, ◌≡◌, refl, ap, ◌∙◌, Bool, true, false, ◌&&◌, none, if◌then◌else◌, ◌==◌, arith,
}
use icetunnel.Event.Sources.{ready-source_set_ready}
use icetunnel.Socket.{
  Kind, read_source, write_source, close_read_source, close_write_source, close_source, to_offset,
  Socket, Group, source_of, get_ready, set_source, set_error, update_socket, close,
}

abbrev pub kind_eq : Kind → Kind → Bool
kind_eq j k = to_offset j == to_offset k

offset-lt : (k : Kind) → to_offset k < 5
offset-lt read_source = omega arith
offset-lt write_source = omega arith
offset-lt close_read_source = omega arith
offset-lt close_write_source = omega arith
offset-lt close_source = omega arith

-- The sources of different sockets have different numbers.
pub source_of-eq :
    (i j : ℕ) (k l : Kind) → (source_of i k == source_of j l) ≡ ((i == j) && kind_eq k l)
source_of-eq i j k l = ground (arith, offset-lt k, offset-lt l)

pub get_ready-set_source :
    (i j : ℕ) (k l : Kind) (value : Bool) (g : Group)
    → get_ready (set_source i k value g) j l
      ≡ (if (j == i) && kind_eq l k then value else get_ready g j l)
unfolding get_ready set_source
get_ready-set_source i j k l value g =
    ready-source_set_ready g.world (source_of i k) value (source_of j l)
    ∙ ap (λ b. if b then value else (g.world.source (source_of j l)).ready) (source_of-eq j i l k)

-- The flags of a closed socket.
abbrev pub closed_flag : Kind → Bool
closed_flag read_source = false
closed_flag write_source = false
closed_flag kind = true

pub get_ready-set_error :
    (error : Bool) (i j : ℕ) (k : Kind) (g : Group)
    → get_ready (set_error error i g) j k ≡ get_ready g j k
unfolding get_ready set_error
get_ready-set_error true i j k g = refl
get_ready-set_error false i j k g = refl

pub get_ready-update :
    (i j : ℕ) (k : Kind) (s : Socket) (g : Group)
    → get_ready (update_socket i s g) j k ≡ get_ready g j k
unfolding get_ready
get_ready-update i j k s g = refl

pub get_ready-close :
    (error : Bool) (i j : ℕ) (k : Kind) (g : Group)
    → get_ready (close error i g) j k ≡ (if j == i then closed_flag k else get_ready g j k)
unfolding close
get_ready-close error i j k g =
    let marked = set_error error i g in
    let g0 = update_socket i (record (marked.socket i) { fd = none }) marked in
    let g1 = set_source i read_source false g0 in
    let g2 = set_source i write_source false g1 in
    let g3 = set_source i close_read_source true g2 in
    let g4 = set_source i close_write_source true g3 in
    let e0 : get_ready g0 j k ≡ get_ready g j k =
      get_ready-update i j k (record (marked.socket i) { fd = none }) marked
      ∙ get_ready-set_error error i j k g in
    steps k (get_ready-set_source i j read_source k false g0)
      (get_ready-set_source i j write_source k false g1)
      (get_ready-set_source i j close_read_source k true g2)
      (get_ready-set_source i j close_write_source k true g3)
      (get_ready-set_source i j close_source k true g4) e0
  where
    steps :
        (l : Kind) {a b c d e f h : Bool}
        → b ≡ (if (j == i) && kind_eq l read_source then false else a)
        → c ≡ (if (j == i) && kind_eq l write_source then false else b)
        → d ≡ (if (j == i) && kind_eq l close_read_source then true else c)
        → e ≡ (if (j == i) && kind_eq l close_write_source then true else d)
        → f ≡ (if (j == i) && kind_eq l close_source then true else e)
        → a ≡ h
        → f ≡ (if j == i then closed_flag l else h)
    steps read_source p q r s t u = ground (arith, p, q, r, s, t, u)
    steps write_source p q r s t u = ground (arith, p, q, r, s, t, u)
    steps close_read_source p q r s t u = ground (arith, p, q, r, s, t, u)
    steps close_write_source p q r s t u = ground (arith, p, q, r, s, t, u)
    steps close_source p q r s t u = ground (arith, p, q, r, s, t, u)
