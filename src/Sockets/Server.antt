-- ===== src/Sockets/Server.antt =====
-- examples/native-sockets/main/udp.c: the rounds of the server's loop.
use studio.Base.{
  ℕ, zero, suc, ◌≤◌, ◌<◌, false, Option, none, some, List, [], ◌∷◌, ◌++◌, length, get_elem?, drop,
  ◌==◌, Bytes, Returns, Returns-map, Returns-for_range, for_range, calls, ◌≡◌, refl, ap, ◌∙◌, inl,
  inr, arith, call, puts, printf, od_hex_dump, Val, num, int, str, Log, Bool-cases, length-append,
  length-drop, append-nil, replicate,
}
use native.Mathlib.Nat.{add-zero}
use studio.Sockets.{
  server_buffer_size, Call, recvfrom, Env, State, c_string, show, heard, receive_round,
}

-- No byte of the datagram is a NUL.
abbrev pub NoNul : Bytes → Type 0
NoNul [] = Unit
NoNul (c ∷ cs) = ((c == 0) ≡ false) × NoNul cs

abbrev pub datagram : Option Bytes → Bytes
datagram none = []
datagram (some d) = d

c_string-total :
    (b : Bytes) (i : ℕ) → get_elem? b i ≡ some 0 → ((t : Bytes) × (c_string b ≡ some t))
unfolding c_string
c_string-total [] i h = ground arith
c_string-total (c ∷ cs) zero h = let e : c ≡ 0 = ground arith in rw e ([], refl)
c_string-total (c ∷ cs) (suc i) h =
    let (t, e) = c_string-total cs i h in
    elim (Bool-cases (c == 0)) [ inl f ↦ rw f ([], refl) | inr f ↦ rw (f, e) (c ∷ t, refl) ]

c_string-NoNul : (d : Bytes) → NoNul d → c_string d ≡ none
unfolding c_string
c_string-NoNul [] h = refl
c_string-NoNul (c ∷ cs) h = rw (h.0, c_string-NoNul cs h.1) refl

drop-nil : (n : ℕ) → drop {A = ℕ} n [] ≡ []
drop-nil zero = refl
drop-nil (suc n) = refl

drop-all : (n : ℕ) (xs : Bytes) → length xs ≤ n → drop n xs ≡ []
drop-all zero [] h = refl
drop-all zero (x ∷ xs) h = absurd (omega arith)
drop-all (suc n) [] h = refl
drop-all (suc n) (x ∷ xs) h = drop-all n xs (omega arith)

-- A write at the start leaves the rest as it was.
get_elem?-append_drop :
    (d b : Bytes) (i : ℕ) → length d ≤ i → get_elem? (d ++ drop (length d) b) i ≡ get_elem? b i
get_elem?-append_drop [] b i h = refl
get_elem?-append_drop (x ∷ d) b zero h = absurd (omega arith)
get_elem?-append_drop (x ∷ d) [] (suc i) h =
    rw (drop-nil (length d)) at (get_elem?-append_drop d [] i (omega arith))
get_elem?-append_drop (x ∷ d) (y ∷ b) (suc i) h = get_elem?-append_drop d b i (omega arith)

c_string-append :
    (d rest stale : Bytes)
    → NoNul d
    → c_string rest ≡ some stale
    → c_string (d ++ rest) ≡ some (d ++ stale)
unfolding c_string
c_string-append [] rest stale h e = e
c_string-append (c ∷ d) rest stale h e = rw (h.0, c_string-append d rest stale h.1 e) refl

abbrev texts : List Val → List Bytes
texts [] = []
texts (num _ ∷ vs) = texts vs
texts (int _ ∷ vs) = texts vs
texts (str t ∷ vs) = t ∷ texts vs

-- The texts that were printed, newest first.
abbrev pub shown : Log Call → List Bytes
shown [] = []
shown (printf _ vs ∷ l) = texts vs ++ shown l
shown (puts _ ∷ l) = shown l
shown (od_hex_dump _ ∷ l) = shown l
shown (call _ ∷ l) = shown l

-- The buffer has its size, and its last byte is a NUL, as at the start.
pub record IsValid (s : State) : Type 0 where
  pub sized : length s.server_buffer ≡ server_buffer_size
  pub ended : get_elem? s.server_buffer 63 ≡ some 0

abbrev pub filled : Bytes → Bytes → Bytes
filled d old = d ++ drop (length d) old

filled-IsValid :
    (d : Bytes) (s t : State)
    → length d < server_buffer_size
    → t.server_buffer ≡ filled d s.server_buffer
    → IsValid s
    → IsValid t
filled-IsValid d s t h e v = record {
  sized =
      ap length e
      ∙ omega (
        arith,
        length-append d (drop (length d) s.server_buffer),
        length-drop (length d) s.server_buffer,
        v.sized,
      );
  ended =
      ap (λ b. get_elem? b 63) e
      ∙ get_elem?-append_drop d s.server_buffer 63 (omega arith)
      ∙ v.ended;
}

-- What a reception must have done.
abbrev pub Hears : Bytes → State → State → Type 0
Hears [] s t = (shown t.log ≡ shown s.log) × (t.server_buffer ≡ s.server_buffer)
Hears (c ∷ cs) s t =
    (text : Bytes) × (t.server_buffer ≡ filled (c ∷ cs) s.server_buffer)
    × (c_string t.server_buffer ≡ some text)
    × (shown t.log ≡ text ∷ shown s.log)

-- Only the lines and the buffer of the state before count.
Hears-same :
    (d : Bytes) (s s' t : State)
    → shown s'.log ≡ shown s.log
    → s'.server_buffer ≡ s.server_buffer
    → Hears d s' t
    → Hears d s t
Hears-same [] s s' t l b h = (h.0 ∙ l, h.1 ∙ b)
Hears-same (c ∷ cs) s s' t l b (text, e, f, g) =
    (text, e ∙ ap (filled (c ∷ cs)) b, f, g ∙ ap (◌∷◌ text) l)

abbrev Undisturbed : State → State → Type 0
Undisturbed s t = (t.server_socket ≡ s.server_socket) × (calls t.log ≡ calls s.log)

module _ (env : Env) where
  heard_lem :
      (res : Option Bytes) (s : State)
      → length (datagram res) < server_buffer_size
      → IsValid s
      → Returns (λ _ t. Hears (datagram res) s t × Undisturbed s t × IsValid t) (heard env res s)
  unfolding heard show
  heard_lem none s h v = ((refl, refl), (refl, refl), record { sized = v.sized; ended = v.ended })
  heard_lem (some []) s h v =
      ((refl, refl), (refl, refl), record { sized = v.sized; ended = v.ended })
  heard_lem (some (c ∷ cs)) s h v =
      let b = filled (c ∷ cs) s.server_buffer in
      let s' = record s { server_buffer = b } in
      let v' = filled-IsValid (c ∷ cs) s s' h refl v in
      let (text, e) = c_string-total b 63 v'.ended in
      rw (e, Returns)
        ((text, refl, e, refl), (refl, refl), record { sized = v'.sized; ended = v'.ended })

  -- A round of the server's loop, whose datagram has fewer bytes than the buffer, returns: it has
  -- read one datagram from the server's socket and printed one line for a non-empty one, which is
  -- the text that stands in the buffer afterwards; the buffer still ends in a NUL.
  pub receive_round_lem :
      (s : State)
      → length (datagram (env.received (call (recvfrom s.server_socket) ∷ s.log)))
        < server_buffer_size
      → IsValid s
      → Returns
          (λ _ t.
            Hears (datagram (env.received (call (recvfrom s.server_socket) ∷ s.log))) s t
            × (t.server_socket ≡ s.server_socket)
            × (calls t.log ≡ recvfrom s.server_socket ∷ calls s.log)
            × IsValid t)
          (receive_round env s)
  unfolding receive_round
  receive_round_lem s h v =
      let res = env.received (call (recvfrom s.server_socket) ∷ s.log) in
      let s' = record s { log = call (recvfrom s.server_socket) ∷ s.log } in
      Returns-map (λ _ t. Hears (datagram res) s' t × Undisturbed s' t × IsValid t)
        (λ _ t.
          Hears (datagram res) s t
          × (t.server_socket ≡ s.server_socket)
          × (calls t.log ≡ recvfrom s.server_socket ∷ calls s.log)
          × IsValid t)
        (heard env res s')
        (λ _ t q. (Hears-same (datagram res) s s' t refl refl q.0, q.1.0, q.1.1, q.2))
        (heard_lem res s' h (record { sized = v.sized; ended = v.ended }))

  abbrev Listened : State → ℕ → State → Type 0
  Listened s n t =
      (calls t.log ≡ replicate n (recvfrom s.server_socket) ++ calls s.log)
      × (t.server_socket ≡ s.server_socket)
      × IsValid t

  listen_step :
      (s : State)
      → ((l : Log Call) → length (datagram (env.received l)) < server_buffer_size)
      → (k : ℕ) (t : State) → Listened s k t
      → Returns (λ _ u. Listened s (suc k) u) (receive_round env t)
  listen_step s fits k t (c, e, v) =
      Returns-map
        (λ _ u.
          Hears (datagram (env.received (call (recvfrom t.server_socket) ∷ t.log))) t u
          × (u.server_socket ≡ t.server_socket)
          × (calls u.log ≡ recvfrom t.server_socket ∷ calls t.log)
          × IsValid u)
        (λ _ u. Listened s (suc k) u) (receive_round env t)
        (λ _ u q. (
          q.2 ∙ ap (λ fd. recvfrom fd ∷ calls t.log) e ∙ ap (◌∷◌ (recvfrom s.server_socket)) c,
          q.1 ∙ e,
          q.3,
        ))
        (receive_round_lem t (fits _) v)

  -- If every datagram has fewer bytes than the buffer, the loop makes any number of rounds: each
  -- reads from the server's socket, none reads past the buffer, and the buffer still ends in a NUL.
  pub receive_rounds_lem :
      (n : ℕ) (s : State)
      → ((l : Log Call) → length (datagram (env.received l)) < server_buffer_size)
      → IsValid s
      → Returns (λ _ t. Listened s n t) (for_range n (receive_round env) s)
  receive_rounds_lem n s fits v =
      Returns-for_range (Listened s) (receive_round env) (listen_step s fits) n 0 n s (add-zero n)
        (refl, refl, v)

  -- A datagram without a NUL that fills the whole buffer leaves no NUL in it, and the `puts` that
  -- follows reads past the end of the array.
  pub receive_overruns :
      (c : ℕ) (cs : Bytes) (s : State)
      → env.received (call (recvfrom s.server_socket) ∷ s.log) ≡ some (c ∷ cs)
      → NoNul (c ∷ cs)
      → length (c ∷ cs) ≡ server_buffer_size
      → length s.server_buffer ≡ server_buffer_size
      → receive_round env s ≡ none
  unfolding receive_round heard show
  receive_overruns c cs s e nn full sized =
      let all : filled (c ∷ cs) s.server_buffer ≡ c ∷ cs =
        ap (λ rest. c ∷ cs ++ rest) (drop-all (suc (length cs)) s.server_buffer (omega arith))
        ∙ append-nil (c ∷ cs) in
      rw (e, all, c_string-NoNul (c ∷ cs) nn) refl

  -- A datagram without a NUL is printed together with what an earlier, longer one left behind it in
  -- the buffer.
  pub receive_stale :
      (c : ℕ) (cs stale : Bytes) (s : State)
      → env.received (call (recvfrom s.server_socket) ∷ s.log) ≡ some (c ∷ cs)
      → NoNul (c ∷ cs)
      → c_string (drop (length (c ∷ cs)) s.server_buffer) ≡ some stale
      → Returns (λ _ t. shown t.log ≡ (c ∷ cs ++ stale) ∷ shown s.log) (receive_round env s)
  unfolding receive_round heard show
  receive_stale c cs stale s e nn left =
      rw (e, c_string-append (c ∷ cs) (drop (length (c ∷ cs)) s.server_buffer) stale nn left) refl
