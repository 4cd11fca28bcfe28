-- ===== src/Lwip/Udp/Reach.antt =====
-- udp.c: what holds in every state that the shell, the server's thread and its events reach.
use studio.Base.{
  ℕ, suc, zero, ◌/◌, Bool, true, false, Option, none, some, List, ◌∷◌, length, Bytes, codes, calls,
  ◌≡◌, refl, sym, ◌∙◌, ap,
}
use studio.Lwip.Hex.Decode.{decode}
use studio.Lwip.Sock.{Endpoint, AsyncFlags, rounds, FitsLine}
use studio.Lwip.Udp.{Call, sock_udp_send, usleep, Env, State, udp_recv, server_thread, udp_cmd}
use studio.Lwip.Udp.Laws.{Sends, usable}
use studio.Lwip.Udp.Server.{
  sock_inbuf_size, opened, RecvFits, Starts, server_thread_lem, udp_recv_lem,
}
use studio.Lwip.Udp.Command.{Request, send, start, reject, request, Meets, udp_cmd_lem}

module _ (env : Env) where
  -- What the shell, the server's thread and its events do, in any order.
  pub data Step : State → State → Type 0 where
    command :
        {s t : State} {r : ℕ} (name : Bytes) (args : List Bytes)
        → FitsLine env.shell_bufsize args
        → udp_cmd env (name ∷ args) s ≡ some (r, t)
        → Step s t
    thread : {s t : State} (args : Bytes) → server_thread env args s ≡ some (tt, t) → Step s t
    event :
        {s t : State} (flags : AsyncFlags)
        → udp_recv env flags (codes "test") s ≡ some (tt, t)
        → Step s t

  pub data Reach (s : State) : State → Type 0 where
    here : Reach s s
    next : {t u : State} → Reach s t → Step t u → Reach s u

  -- The flag of the server says that its socket serves events, and the buffer has its size.
  pub record IsValid (s : State) : Type 0 where
    pub running : s.server_running ≡ opened (calls s.log)
    pub sized : length s.sock_inbuf ≡ sock_inbuf_size

  opened-rounds :
      (n : ℕ) (own : Bool) (payload : Bytes) (dst : Endpoint) (delay : ℕ) (l : List Call)
      → opened (rounds n (sock_udp_send own payload dst) (usleep delay) l) ≡ opened l
  opened-rounds zero own payload dst delay l = refl
  opened-rounds (suc n) own payload dst delay l = opened-rounds n own payload dst delay l

  Sends-IsValid :
      (dst : Option Endpoint) (payload : Bytes) (n delay : ℕ) (s : State) (r : ℕ) (t : State)
      → Sends env dst payload n delay s r t
      → IsValid s
      → IsValid t
  Sends-IsValid none payload n delay s r t (_, c, (e, b)) v = record {
    running = e ∙ v.running ∙ ap opened (sym c);
    sized = ap length b ∙ v.sized;
  }
  Sends-IsValid (some dst) payload n delay s r t (_, c, (e, b)) v = record {
    running =
        e
        ∙ v.running
        ∙ sym (opened-rounds n s.server_running payload dst delay (calls s.log))
        ∙ ap opened (sym c);
    sized = ap length b ∙ v.sized;
  }

  Meets-IsValid :
      (q : Request) (s : State) (r : ℕ) (t : State) → Meets env q s r t → IsValid s → IsValid t
  Meets-IsValid (send addr text n delay) s r t h v =
      Sends-IsValid (usable env (env.str2ep addr)) (decode text) n delay s r t h v
  Meets-IsValid (start port) s r t (_, c, (e, b)) v = record {
    running = e ∙ v.running ∙ ap opened (sym c);
    sized = ap length b ∙ v.sized;
  }
  Meets-IsValid reject s r t (_, c, (e, b)) v = record {
    running = e ∙ v.running ∙ ap opened (sym c);
    sized = ap length b ∙ v.sized;
  }

  Starts-IsValid :
      (failed : Bool) (args : Bytes) (s t : State)
      → Starts env failed args s t
      → IsValid s
      → IsValid t
  Starts-IsValid true args s t (c, (e, b)) v = record {
    running = e ∙ v.running ∙ ap opened (sym c);
    sized = ap length b ∙ v.sized;
  }
  Starts-IsValid false args s t (c, e, b) v = record {
    running = e ∙ ap opened (sym c);
    sized = ap length b ∙ v.sized;
  }

  Step-IsValid :
      {s t : State}
      → length env.byte_data ≡ env.shell_bufsize / 2
      → RecvFits env
      → Step s t
      → IsValid s
      → IsValid t
  Step-IsValid {s} {t} e fits (command {r} name args f ran) v =
      Meets-IsValid (request args) s r t (rw ran at (udp_cmd_lem env name args s e f)) v
  Step-IsValid {s} {t} e fits (thread args ran) v =
      Starts-IsValid _ args s t (rw ran at (server_thread_lem env args s)) v
  Step-IsValid {s} {t} e fits (event flags ran) v =
      let h = rw ran at (udp_recv_lem env flags s fits v.sized) in
      record { running = h.1.0 ∙ v.running ∙ sym h.1.2; sized = h.1.1 ∙ v.sized }

  -- In every state that is reached the server is said to run exactly if its socket has been
  -- created and serves events, and the receive buffer has its size.
  pub Reach-IsValid :
      {s t : State}
      → length env.byte_data ≡ env.shell_bufsize / 2
      → RecvFits env
      → IsValid s
      → Reach s t
      → IsValid t
  Reach-IsValid e fits v here = v
  Reach-IsValid e fits v (next r st) = Step-IsValid e fits st (Reach-IsValid e fits v r)
