-- ===== src/Socket/Sound.antt =====
-- The states of a socket: half-closed, closed, and what is never ready then.
use icetunnel.Prelude.{
  ℕ, ◌≡◌, refl, sym, ap, ◌∙◌, inl, inr, Bool, true, false, ◌&&◌, none, if◌then◌else◌, if_case, ◌==◌,
  arith, ==_iff, Bool-cases,
}
use icetunnel.Socket.{
  Kind, read_source, write_source, close_read_source, close_write_source, close_source, Group,
  get_ready, set_source, set_error, close, close_read, close_write,
}
use icetunnel.Socket.Flags.{kind_eq, get_ready-set_source, get_ready-close, get_ready-set_error}

-- A socket is closed when both directions are; a closed direction is not ready, and a closed socket
-- has no descriptor.
pub record IsSound (g : Group) (j : ℕ) : Type 0 where
  pub whole :
      get_ready g j close_source
      ≡ (get_ready g j close_read_source && get_ready g j close_write_source)
  pub no_read : get_ready g j close_read_source ≡ true → get_ready g j read_source ≡ false
  pub no_write : get_ready g j close_write_source ≡ true → get_ready g j write_source ≡ false
  pub no_fd : get_ready g j close_source ≡ true → (g.socket j).fd ≡ none

abbrev pub IsSoundGroup : Group → Type 0
IsSoundGroup g = (j : ℕ) → IsSound g j

close-fd :
    (error : Bool) (i j : ℕ) (g : Group)
    → ((close error i g).socket j).fd ≡ (if j == i then none else (g.socket j).fd)
unfolding close set_source set_error
close-fd true i j g = ground arith
close-fd false i j g = ground arith

-- `close` makes its socket sound, whatever it was.
pub close-IsSound :
    (error : Bool) (i : ℕ) (g : Group)
    → ((j : ℕ) → (j == i) ≡ false → IsSound g j)
    → IsSoundGroup (close error i g)
close-IsSound error i g h j =
    let at = λ (k : Kind). get_ready-close error i j k g in
    elim (Bool-cases (j == i)) [
      | inl same ↦ record {
        whole = ground (arith, at close_source, at close_read_source, at close_write_source, same);
        no_read = λ e. ground (arith, at read_source, same);
        no_write = λ e. ground (arith, at write_source, same);
        no_fd = λ e. ground (arith, close-fd error i j g, same);
      }
      | inr other ↦
          let old = h j other in
          record {
            whole = ground (
              arith,
              at close_source,
              at close_read_source,
              at close_write_source,
              other,
              old.whole,
            );
            no_read =
                λ e. ground (arith, at close_read_source, at read_source, other, old.no_read, e);
            no_write =
                λ e. ground (arith, at close_write_source, at write_source, other, old.no_write, e);
            no_fd = λ e. ground (arith, at close_source, close-fd error i j g, other, old.no_fd, e);
          }
    ]

-- A change that leaves the flags and the descriptor alone.
pub same-IsSound :
    (g g' : Group) (j : ℕ)
    → ((k : Kind) → get_ready g' j k ≡ get_ready g j k)
    → (g'.socket j).fd ≡ (g.socket j).fd
    → IsSound g j
    → IsSound g' j
same-IsSound g g' j flags fd h = record {
  whole =
      ground
        (arith, flags close_source, flags close_read_source, flags close_write_source, h.whole);
  no_read = λ e. ground (arith, flags close_read_source, flags read_source, h.no_read, e);
  no_write = λ e. ground (arith, flags close_write_source, flags write_source, h.no_write, e);
  no_fd = λ e. fd ∙ h.no_fd (sym (flags close_source) ∙ e);
}

pub set_source-socket :
    (i : ℕ) (k : Kind) (value : Bool) (g : Group) → (set_source i k value g).socket ≡ g.socket
unfolding set_source
set_source-socket i k value g = refl

-- Read and write may become ready while their direction is open, and not ready at any time.
pub set_read-IsSound :
    (i : ℕ) (value : Bool) (g : Group)
    → (get_ready g i close_read_source ≡ true → value ≡ false)
    → IsSoundGroup g
    → IsSoundGroup (set_source i read_source value g)
set_read-IsSound i value g ok h j =
    let at = λ (k : Kind). get_ready-set_source i j read_source k value g in
    let old = h j in
    record {
      whole =
          ground (arith, at close_source, at close_read_source, at close_write_source, old.whole);
      no_read = λ e. elim (Bool-cases (j == i)) [
        | inl same ↦
            let equal = (==_iff j i).0 same in
            let shut : get_ready g i close_read_source ≡ true =
              ap (λ m. get_ready g m close_read_source) (sym equal)
              ∙ ground (arith, at close_read_source, e) in
            ground (arith, at read_source, same, ok shut)
        | inr other ↦ ground (arith, at close_read_source, at read_source, other, old.no_read, e)
      ];
      no_write = λ e. ground (arith, at close_write_source, at write_source, old.no_write, e);
      no_fd = λ e.
          ap (λ s. (s j).fd) (set_source-socket i read_source value g)
          ∙ old.no_fd (ground (arith, at close_source, e));
    }

pub set_write-IsSound :
    (i : ℕ) (value : Bool) (g : Group)
    → (get_ready g i close_write_source ≡ true → value ≡ false)
    → IsSoundGroup g
    → IsSoundGroup (set_source i write_source value g)
set_write-IsSound i value g ok h j =
    let at = λ (k : Kind). get_ready-set_source i j write_source k value g in
    let old = h j in
    record {
      whole =
          ground (arith, at close_source, at close_read_source, at close_write_source, old.whole);
      no_read = λ e. ground (arith, at close_read_source, at read_source, old.no_read, e);
      no_write = λ e. elim (Bool-cases (j == i)) [
        | inl same ↦
            let equal = (==_iff j i).0 same in
            let shut : get_ready g i close_write_source ≡ true =
              ap (λ m. get_ready g m close_write_source) (sym equal)
              ∙ ground (arith, at close_write_source, e) in
            ground (arith, at write_source, same, ok shut)
        | inr other ↦ ground (arith, at close_write_source, at write_source, other, old.no_write, e)
      ];
      no_fd = λ e.
          ap (λ s. (s j).fd) (set_source-socket i write_source value g)
          ∙ old.no_fd (ground (arith, at close_source, e));
    }

marked-IsSound :
    (error : Bool) (i : ℕ) (g : Group) → IsSoundGroup g → IsSoundGroup (set_error error i g)
marked-IsSound error i g h j =
    same-IsSound g (set_error error i g) j (λ k. get_ready-set_error error i j k g) (fd error) (h j)
  where
    fd : (b : Bool) → ((set_error b i g).socket j).fd ≡ (g.socket j).fd
    fd true = unfold set_error in ground arith
    fd false = unfold set_error in refl

-- A socket but for the two flags of one half: the flags afterwards.
abbrev half_flags : Kind → Kind → Bool → Kind → Bool → Bool
half_flags side closing here k old =
    if here && kind_eq k closing then true else if here && kind_eq k side then false else old

pub get_ready_half :
    (i j : ℕ) (side closing k : Kind) (g : Group)
    → get_ready (set_source i closing true (set_source i side false g)) j k
      ≡ half_flags side closing (j == i) k (get_ready g j k)
get_ready_half i j side closing k g =
    get_ready-set_source i j closing k true (set_source i side false g)
    ∙ ap (λ b. if (j == i) && kind_eq k closing then true else b)
        (get_ready-set_source i j side k false g)

half-socket :
    (i : ℕ) (side closing : Kind) (g : Group)
    → (set_source i closing true (set_source i side false g)).socket ≡ g.socket
unfolding set_source
half-socket i side closing g = refl

pub close_read-IsSound :
    (error : Bool) (i : ℕ) (g : Group) → IsSoundGroup g → IsSoundGroup (close_read error i g)
unfolding close_read
close_read-IsSound error i g h =
    let m = set_error error i g in
    let hm = marked-IsSound error i g h in
    let half = set_source i close_read_source true (set_source i read_source false m) in
    let at = λ (j : ℕ) (k : Kind). get_ready_half i j read_source close_read_source k m in
    let fd = λ (j : ℕ). ap (λ s. (s j).fd) (half-socket i read_source close_read_source m) in
    let others : (j : ℕ) → (j == i) ≡ false → IsSound half j = λ j other.
      same-IsSound m half j
        (λ k.
          at j k ∙ ap (λ b. half_flags read_source close_read_source b k (get_ready m j k)) other)
        (fd j) (hm j) in
    if_case IsSoundGroup (get_ready m i close_read_source) m _ (λ was. hm)
      (λ new.
        if_case IsSoundGroup (get_ready half i close_write_source) _ half
          (λ both. close-IsSound false i half others)
          (λ one j. elim (Bool-cases (j == i)) [
            | inr other ↦ others j other
            | inl same ↦
                let equal = (==_iff j i).0 same in
                let one' : get_ready half j close_write_source ≡ false =
                  ap (λ n. get_ready half n close_write_source) equal ∙ one in
                let new' : get_ready m j close_read_source ≡ false =
                  ap (λ n. get_ready m n close_read_source) equal ∙ new in
                let old = hm j in
                record {
                  whole = ground (arith, at j close_source, same, new', one', old.whole);
                  no_read = λ e. ground (arith, at j read_source, same);
                  no_write = λ e. absurd (cc (e, one'));
                  no_fd = λ e. absurd (ground (arith, at j close_source, same, new', old.whole, e));
                }
          ]))

pub close_write-IsSound :
    (error : Bool) (i : ℕ) (g : Group) → IsSoundGroup g → IsSoundGroup (close_write error i g)
unfolding close_write
close_write-IsSound error i g h =
    let m = set_error error i g in
    let hm = marked-IsSound error i g h in
    let half = set_source i close_write_source true (set_source i write_source false m) in
    let at = λ (j : ℕ) (k : Kind). get_ready_half i j write_source close_write_source k m in
    let fd = λ (j : ℕ). ap (λ s. (s j).fd) (half-socket i write_source close_write_source m) in
    let others : (j : ℕ) → (j == i) ≡ false → IsSound half j = λ j other.
      same-IsSound m half j
        (λ k.
          at j k ∙ ap (λ b. half_flags write_source close_write_source b k (get_ready m j k)) other)
        (fd j) (hm j) in
    if_case IsSoundGroup (get_ready m i close_write_source) m _ (λ was. hm)
      (λ new.
        if_case IsSoundGroup (get_ready half i close_read_source) _ half
          (λ both. close-IsSound false i half others)
          (λ one j. elim (Bool-cases (j == i)) [
            | inr other ↦ others j other
            | inl same ↦
                let equal = (==_iff j i).0 same in
                let one' : get_ready half j close_read_source ≡ false =
                  ap (λ n. get_ready half n close_read_source) equal ∙ one in
                let new' : get_ready m j close_write_source ≡ false =
                  ap (λ n. get_ready m n close_write_source) equal ∙ new in
                let old = hm j in
                record {
                  whole = ground (arith, at j close_source, same, new', one', old.whole);
                  no_read = λ e. absurd (cc (e, one'));
                  no_write = λ e. ground (arith, at j write_source, same);
                  no_fd = λ e. absurd (ground (arith, at j close_source, same, new', old.whole, e));
                }
          ]))
