-- ===== src/Risu/Socket/Sending.antt =====
-- risu.c: how the master follows the responses that it reads through a socket.
use risu.Prelude.{
  ℕ, ◌≡◌, refl, ◌∙◌, sym, ap, subst, true, false, List, ◌∷◌, Option, none, some, ltb, length, take,
  if_false, arith,
}
use risu.Prelude.Outcome.{Always, Always-bind, Always-if, Always-weaken}
use risu.Comms.{send_data_pkt}
use risu.Comms.Asking.{TookOne, send_data_pkt-TookOne}
use risu.Risu.Op.{
  RisuOp, op_sigill, op_compare, op_testend, op_setmemblock, op_getmemblock, op_comparemem,
  op_setupbegin, op_setupend, op_other, RisuResult, res_ok, res_end, res_of, is_ok,
}
use risu.Risu.Header.{Platform, sizeof_header, header_bytes, header_host_to_arch}
use risu.Risu.Arch.{Arch}
use risu.Risu.State.{State, write_buffer}
use risu.Risu.Master.{
  prepare_record, write_extra, write_header, write_record, master_effect, send_record,
}

-- The program talks through a socket, with these bytes to come.
pub record HasToRead {a : Arch} (l : List ℕ) (st : State a) : Type 0 where
  pub socket : st.trace ≡ false
  pub incoming : st.comm.incoming ≡ l

-- What an operation itself gives at the master.
abbrev pub own_result : RisuOp → RisuResult
own_result op_testend = res_end
own_result _ = res_ok

-- How the master ends a record on the responses that it has read: with the first one that is not
-- RES_OK, or, if all one or two are, with the result of its own operation.
pub data Obeyed (op : RisuOp) (l : List ℕ) (res : RisuResult) (left : List ℕ) : Type 0 where
  stops : (b : ℕ) → l ≡ b ∷ left → res ≡ res_of b → is_ok (res_of b) ≡ false → Obeyed op l res left
  stops_later :
      (b : ℕ) → l ≡ 0 ∷ b ∷ left → res ≡ res_of b → is_ok (res_of b) ≡ false → Obeyed op l res left
  goes_on : l ≡ 0 ∷ left → res ≡ own_result op → Obeyed op l res left
  goes_on_later : l ≡ 0 ∷ 0 ∷ left → res ≡ own_result op → Obeyed op l res left

-- One response, and the result that it is.
pub record Response {a : Arch} (l : List ℕ) (res : RisuResult) (st : State a) : Type 0 where
  pub socket : st.trace ≡ false
  pub response : ℕ
  pub taken : l ≡ response ∷ st.comm.incoming
  pub result : res ≡ res_of response

ok_byte : (b : ℕ) → is_ok (res_of b) ≡ true → b ≡ 0
unfolding res_of
ok_byte b h = ground arith

pub zero_is_ok : res_ok ≡ res_of 0
unfolding res_of
zero_is_ok = refl

module _ (a : Arch) (p : Platform) (fuel : ℕ) (l : List ℕ) where
  write_buffer-Response :
      (k : List ℕ) (ptr : List ℕ) (n : ℕ) (st : State a)
      → HasToRead k st
      → Always (λ r. Response k r.0 r.1) (write_buffer a p fuel ptr n st)
  unfolding write_buffer
  write_buffer-Response k ptr n st h =
      Always-if (λ r. Response k r.0 r.1) (ltb (length ptr) n) _ _ (λ c. tt)
        (λ c. subst (Always (λ r. Response k r.0 r.1)) (sym (if_false _ _ _ h.socket)) (
          Always-bind (TookOne st.comm.incoming) (λ r. Response k r.0 r.1)
            (send_data_pkt fuel (take n ptr) n st.comm) _
            (send_data_pkt-TookOne fuel (take n ptr) n st.comm)
            (λ q e. record {
              socket = h.socket;
              response = q.0;
              taken = sym h.incoming ∙ e;
              result = refl;
            })))

  -- What was written, one packet or two.
  data Written (res : RisuResult) (st : State a) : Type 0 where
    once : Response l res st → Written res st
    twice : (k : List ℕ) → l ≡ 0 ∷ k → Response k res st → Written res st

  write_record-Written :
      (extra : Option (List ℕ)) (st : State a)
      → HasToRead l st
      → Always (λ r. Written r.0 r.1) (write_record a p fuel extra st)
  unfolding write_record write_header write_extra
  write_record-Written extra st h =
      let st1 = record st { header = header_host_to_arch p st.header } in
      let bytes = header_bytes p.host_little_endian st1.header in
      let h1 : HasToRead l st1 = record { socket = h.socket; incoming = h.incoming } in
      Always-bind (λ r. Response l r.0 r.1) (λ r. Written r.0 r.1)
        (write_buffer a p fuel bytes sizeof_header st1) _
        (write_buffer-Response l bytes sizeof_header st1 h1)
        (λ r w.
          Always-if (λ r. Written r.0 r.1) (is_ok r.0) _ _
            (λ c. by_extra extra r.1 w.socket (
              w.taken
              ∙ ap (λ b. b ∷ r.1.comm.incoming) (ok_byte w.response (ap is_ok (sym w.result) ∙ c))))
            (λ c. once w))
    where
      by_extra :
          (extra : Option (List ℕ)) (st : State a)
          → st.trace ≡ false
          → l ≡ 0 ∷ st.comm.incoming
          → Always (λ r. Written r.0 r.1) (write_extra a p fuel extra st)
      by_extra none st t e =
          once (record { socket = t; response = 0; taken = e; result = zero_is_ok })
      by_extra (some bytes) st t e =
          Always-weaken (λ r. Response st.comm.incoming r.0 r.1) (λ r. Written r.0 r.1)
            (write_buffer a p fuel bytes st.header.size st)
            (write_buffer-Response st.comm.incoming bytes st.header.size st
              (record { socket = t; incoming = refl }))
            (λ r w. twice st.comm.incoming e w)

  master_effect-Sent :
      (op : RisuOp) (uc : a.Ucontext) (st : State a) (k : List ℕ)
      → st.comm.incoming ≡ k
      → Always
          (λ r. (r.0 ≡ own_result op) × (r.2.comm.incoming ≡ k))
          (master_effect a p fuel op uc st)
  unfolding master_effect
  master_effect-Sent op_compare uc st k h = (refl, h)
  master_effect-Sent op_testend uc st k h = (refl, h)
  master_effect-Sent op_sigill uc st k h = (refl, h)
  master_effect-Sent op_comparemem uc st k h = (refl, h)
  master_effect-Sent op_setmemblock uc st k h = (refl, h)
  master_effect-Sent op_getmemblock uc st k h = (refl, h)
  master_effect-Sent op_setupbegin uc st k h = (refl, h)
  master_effect-Sent op_setupend uc st k h = (refl, h)
  master_effect-Sent (op_other w) uc st k h = tt

  prepare_record-HasToRead :
      (op : RisuOp) (uc : a.Ucontext) (st : State a)
      → HasToRead l st
      → Always (λ r. HasToRead l r.1) (prepare_record a p fuel op uc st)
  unfolding prepare_record
  prepare_record-HasToRead op_compare uc st h = record { socket = h.socket; incoming = h.incoming }
  prepare_record-HasToRead op_testend uc st h = record { socket = h.socket; incoming = h.incoming }
  prepare_record-HasToRead op_sigill uc st h = record { socket = h.socket; incoming = h.incoming }
  prepare_record-HasToRead op_comparemem uc st h = record {
    socket = h.socket;
    incoming = h.incoming;
  }
  prepare_record-HasToRead op_setmemblock uc st h = record {
    socket = h.socket;
    incoming = h.incoming;
  }
  prepare_record-HasToRead op_getmemblock uc st h = record {
    socket = h.socket;
    incoming = h.incoming;
  }
  prepare_record-HasToRead op_setupbegin uc st h = record {
    socket = h.socket;
    incoming = h.incoming;
  }
  prepare_record-HasToRead op_setupend uc st h = record { socket = h.socket; incoming = h.incoming }
  prepare_record-HasToRead (op_other w) uc st h = tt

  stopped :
      (op : RisuOp) (res : RisuResult) (st : State a)
      → Written res st
      → is_ok res ≡ false
      → Obeyed op l res st.comm.incoming
  stopped op res st (once w) c = stops w.response w.taken w.result (ap is_ok (sym w.result) ∙ c)
  stopped op res st (twice k e w) c =
      stops_later w.response (e ∙ ap (λ x. 0 ∷ x) w.taken) w.result (ap is_ok (sym w.result) ∙ c)

  continued :
      (op : RisuOp) (res last : RisuResult) (left : List ℕ) (st : State a)
      → Written res st
      → is_ok res ≡ true
      → last ≡ own_result op
      → left ≡ st.comm.incoming
      → Obeyed op l last left
  continued op res last left st (once w) c r e =
      goes_on (w.taken ∙ (λ i. ok_byte w.response (ap is_ok (sym w.result) ∙ c) i ∷ sym e i)) r
  continued op res last left st (twice k z w) c r e =
      goes_on_later
        (z
          ∙ ap (λ x. 0 ∷ x) w.taken
          ∙ (λ i. 0 ∷ ok_byte w.response (ap is_ok (sym w.result) ∙ c) i ∷ sym e i))
        r

  pub send_record-Obeyed :
      (op : RisuOp) (uc : a.Ucontext) (st : State a)
      → HasToRead l st
      → Always (λ r. Obeyed op l r.0 r.2.comm.incoming) (send_record a p fuel op uc st)
  unfolding send_record
  send_record-Obeyed op uc st h =
      Always-bind (λ r. HasToRead l r.1) _ _ _ (prepare_record-HasToRead op uc st h)
        λ r k.
          Always-bind (λ q. Written q.0 q.1) _ _ _ (write_record-Written r.0 r.1 k)
            λ q w.
              Always-if (λ r. Obeyed op l r.0 r.2.comm.incoming) (is_ok q.0) _ _
                (λ c.
                  Always-weaken
                    (λ r. (r.0 ≡ own_result op) × (r.2.comm.incoming ≡ q.1.comm.incoming))
                    (λ r. Obeyed op l r.0 r.2.comm.incoming) (master_effect a p fuel op uc q.1)
                    (master_effect-Sent op uc q.1 q.1.comm.incoming refl)
                    (λ r e. continued op q.0 r.0 r.2.comm.incoming q.1 w c e.0 e.1))
                (λ c. stopped op q.0 q.1 w c)
