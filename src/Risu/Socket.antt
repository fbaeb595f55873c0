-- ===== src/Risu/Socket.antt =====
-- risu.c: the apprentice's answers through a socket.
pub mod Sending
pub mod Lockstep
use risu.Prelude.{
  ℕ, ◌%◌, ◌≡◌, refl, ◌∙◌, sym, ap, ◌⊎◌, inl, inr, Bool, true, false, List, [], ◌∷◌, ◌++◌, ◌==◌, ltb,
  Option, none, some, if◌then◌else◌, if_false, subst,
}
use mathlib.Core.List.{append_assoc}
use risu.Prelude.Outcome.{Outcome, done, Always, Always-bind, Always-if, ◌>>=◌}
use risu.Comms.{Descriptor, recv_data_pkt, send_response_byte}
use risu.Comms.Silent.{recv_data_pkt-Sent, send_response_byte-one}
use risu.Risu.Op.{
  RisuOp, op_sigill, op_compare, op_testend, op_setmemblock, op_getmemblock, op_comparemem,
  op_setupbegin, op_setupend, op_other, op_of, RisuResult, res_ok, res_end, res_code, is_ok,
}
use risu.Risu.Header.{Platform, sizeof_header, risu_magic, TraceHeader, header_arch_to_host}
use risu.Risu.Arch.{Arch}
use risu.Risu.State.{State, memblocklen, store_header, read_buffer, recv_result, respond}
use risu.Risu.Apprentice.{
  recv_registers, recv_memory, recv_nothing, recv_payload, check_header, recv_register_info,
  finish_compare, compare_record,
}
use risu.Risu.Sound.Effects.{apprentice_effect-Kept}

-- The program talks through a socket, and has sent these bytes.
pub record HasSent {a : Arch} (s : List ℕ) (st : State a) : Type 0 where
  pub socket : st.trace ≡ false
  pub sent : st.comm.sent ≡ s

-- What finish_compare answers.
abbrev pub verdict_byte : RisuResult → ℕ
verdict_byte res = if is_ok res then 0 else 1

-- The apprentice has answered the record with the last byte alone, or with RES_OK before it.
abbrev pub Answered : {a : Arch} → List ℕ → RisuResult → State a → Type 0
Answered s res st =
    HasSent (s ++ verdict_byte res ∷ []) st ⊎ HasSent (s ++ 0 ∷ verdict_byte res ∷ []) st

module _ (a : Arch) (p : Platform) (fuel : ℕ) (s : List ℕ) where
  -- Before the last answer.
  Heard : State a → Type 0
  Heard st = HasSent s st ⊎ HasSent (s ++ 0 ∷ []) st

  abbrev HeardRecord : RisuResult × State a → Type 0
  HeardRecord (r, st) = Heard st

  read_buffer-HasSent :
      (t : List ℕ) (n : ℕ) (st : State a)
      → HasSent t st
      → Always (λ r. HasSent t r.2) (read_buffer a p fuel n st)
  unfolding read_buffer
  read_buffer-HasSent t n st h =
      subst (Always (λ r. HasSent t r.2)) (sym (if_false _ _ _ h.socket)) (
        Always-bind (λ q. q.1.sent ≡ t) (λ r. HasSent t r.2) (recv_data_pkt fuel n st.comm) _
          (recv_data_pkt-Sent t fuel n st.comm h.sent) received)
    where
      received :
          (q : Option (List ℕ) × Descriptor)
          → q.1.sent ≡ t
          → Always (λ r. HasSent t r.2) (done (recv_result a p fuel q st))
      received (none, d) e = unfold recv_result in record { socket = h.socket; sent = e }
      received (some got, d) e = unfold recv_result in record { socket = h.socket; sent = e }

  respond-HasSent :
      (t : List ℕ) (r : RisuResult) (st : State a)
      → HasSent t st
      → Always (HasSent (t ++ res_code r % 256 ∷ [])) (respond a p fuel r st)
  unfolding respond
  respond-HasSent t r st h =
      subst (Always (HasSent (t ++ res_code r % 256 ∷ []))) (sym (if_false _ _ _ h.socket)) (
        Always-bind _ (HasSent (t ++ res_code r % 256 ∷ []))
          (send_response_byte (res_code r) st.comm) _ (send_response_byte-one (res_code r) st.comm)
          (λ d e. record {
            socket = h.socket;
            sent = e ∙ ap (λ x. x ++ res_code r % 256 ∷ []) h.sent;
          }))

  recv_registers-Heard :
      (st : State a) → HasSent s st → Always HeardRecord (recv_registers a p fuel st)
  unfolding recv_registers Heard
  recv_registers-Heard st h =
      Always-if HeardRecord (ltb a.sizeof_reginfo st.header.size) _ _ (λ e. inl h)
        (λ e.
          Always-bind (HasSent (s ++ 0 ∷ [])) HeardRecord (respond a p fuel res_ok st) _
            (respond-HasSent s res_ok st h)
            (λ st1 h1.
              Always-bind (λ r. HasSent (s ++ 0 ∷ []) r.2) HeardRecord
                (read_buffer a p fuel st.header.size st1) _
                (read_buffer-HasSent (s ++ 0 ∷ []) st.header.size st1 h1)
                (λ r k. inr (record { socket = k.socket; sent = k.sent }))))

  recv_memory-Heard : (st : State a) → HasSent s st → Always HeardRecord (recv_memory a p fuel st)
  unfolding recv_memory Heard
  recv_memory-Heard st h =
      Always-if HeardRecord (st.header.size == memblocklen) _ _
        (λ e.
          Always-bind (HasSent (s ++ 0 ∷ [])) HeardRecord (respond a p fuel res_ok st) _
            (respond-HasSent s res_ok st h)
            (λ st1 h1.
              Always-bind (λ r. HasSent (s ++ 0 ∷ []) r.2) HeardRecord
                (read_buffer a p fuel memblocklen st1) _
                (read_buffer-HasSent (s ++ 0 ∷ []) memblocklen st1 h1)
                (λ r k. inr (record { socket = k.socket; sent = k.sent }))))
        (λ e. inl h)

  recv_payload-Heard :
      (op : RisuOp) (st : State a) → HasSent s st → Always HeardRecord (recv_payload a p fuel op st)
  unfolding recv_payload recv_nothing Heard
  recv_payload-Heard op_compare st h = recv_registers-Heard st h
  recv_payload-Heard op_testend st h = recv_registers-Heard st h
  recv_payload-Heard op_sigill st h = recv_registers-Heard st h
  recv_payload-Heard op_comparemem st h = recv_memory-Heard st h
  recv_payload-Heard op_setmemblock st h = inl h
  recv_payload-Heard op_getmemblock st h = inl h
  recv_payload-Heard op_setupbegin st h = inl h
  recv_payload-Heard op_setupend st h = inl h
  recv_payload-Heard (op_other w) st h = inl h

  check_header-Heard : (st : State a) → HasSent s st → Always HeardRecord (check_header a p fuel st)
  unfolding check_header Heard
  check_header-Heard st h =
      Always-if HeardRecord (st.header.magic == risu_magic) _ _
        (λ e. recv_payload-Heard (op_of st.header.risu_op) st h) (λ e. inl h)

  with_header :
      (st : State a) (g : TraceHeader) → HasSent s st → HasSent s (record st { header = g })
  with_header st g h = record { socket = h.socket; sent = h.sent }

  recv_register_info-Heard :
      (st : State a) → HasSent s st → Always HeardRecord (recv_register_info a p fuel st)
  unfolding recv_register_info Heard
  recv_register_info-Heard st h =
      Always-bind (λ r. HasSent s r.2) HeardRecord (read_buffer a p fuel sizeof_header st) _
        (read_buffer-HasSent s sizeof_header st h)
        (λ r k.
          let raw = store_header a p fuel r.1 r.2.header in
          Always-if HeardRecord (is_ok r.0) _ _
            (λ e. check_header-Heard _ (with_header r.2 (header_arch_to_host raw) k))
            (λ e. inl (with_header r.2 raw k)))

  -- The fields that the effect changes are not those of the socket.
  same_socket :
      (st st' : State a) → st'.trace ≡ st.trace → st'.comm ≡ st.comm → Heard st → Heard st'
  unfolding Heard
  same_socket st st' t c (inl h) =
      inl (record { socket = t ∙ h.socket; sent = ap (λ d. d.sent) c ∙ h.sent })
  same_socket st st' t c (inr h) =
      inr (record { socket = t ∙ h.socket; sent = ap (λ d. d.sent) c ∙ h.sent })

  answer :
      (t : List ℕ) (res : RisuResult) (st : State a)
      → HasSent t st
      → Always
          (HasSent (t ++ verdict_byte res ∷ []))
          (respond a p fuel (if is_ok res then res_ok else res_end) st)
  answer t res st h =
      subst
        (λ b.
          Always (HasSent (t ++ b ∷ []))
            (respond a p fuel (if is_ok res then res_ok else res_end) st))
        (coded (is_ok res)) (respond-HasSent t (if is_ok res then res_ok else res_end) st h)
    where
      coded : (b : Bool) → res_code (if b then res_ok else res_end) % 256 ≡ (if b then 0 else 1)
      coded true = refl
      coded false = refl

  finish_compare-Answered :
      (r : RisuResult × a.Ucontext × State a)
      → Heard r.2
      → Always (λ q. Answered s q.0 q.2) (finish_compare a p fuel r)
  unfolding finish_compare Heard
  finish_compare-Answered (res, uc, st) (inl h) =
      Always-bind (HasSent (s ++ verdict_byte res ∷ [])) (λ q. Answered s q.0 q.2)
        (respond a p fuel (if is_ok res then res_ok else res_end) st) _ (answer s res st h)
        (λ st1 k. inl k)
  finish_compare-Answered (res, uc, st) (inr h) =
      Always-bind (HasSent ((s ++ 0 ∷ []) ++ verdict_byte res ∷ [])) (λ q. Answered s q.0 q.2)
        (respond a p fuel (if is_ok res then res_ok else res_end) st) _
        (answer (s ++ 0 ∷ []) res st h)
        (λ st1 k. inr (record {
          socket = k.socket;
          sent = k.sent ∙ append_assoc s (0 ∷ []) (verdict_byte res ∷ []);
        }))

  -- x
  pub compare_record-Answered :
      (op : RisuOp) (uc : a.Ucontext) (st : State a)
      → HasSent s st
      → Always (λ r. Answered s r.0 r.2) (compare_record a p fuel op uc st)
  unfolding compare_record
  compare_record-Answered op uc st h =
      Always-bind HeardRecord (λ r. Answered s r.0 r.2) (recv_register_info a p fuel st) _
        (recv_register_info-Heard st h)
        (λ r k.
          Always-bind (λ q. Heard q.2) (λ q. Answered s q.0 q.2) _ _
            (Always-if (λ q. Heard q.2) (is_ok r.0) _ _
              (λ e.
                apprentice_effect-Kept a p fuel Heard (λ x ri k. same_socket x _ refl refl k)
                  (λ x m k. same_socket x _ refl refl k) (λ x b k. same_socket x _ refl refl k) op
                  uc r.1 k)
              (λ e. k))
            finish_compare-Answered)
