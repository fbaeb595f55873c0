-- ===== src/Risu/Socket/Lockstep.antt =====
-- risu.c: one record through a socket, seen from both ends.
use risu.Prelude.{
  ℕ, ◌≡◌, refl, ap, subst, ◌⊎◌, inl, inr, Bool, true, false, List, [], ◌∷◌, if◌then◌else◌,
}
use risu.Prelude.Outcome.{done, Always}
use risu.Risu.Op.{RisuOp, RisuResult, res_end, res_of, is_ok}
use risu.Risu.Header.{Platform}
use risu.Risu.Arch.{Arch}
use risu.Risu.State.{State}
use risu.Risu.Master.{send_record}
use risu.Risu.Apprentice.{compare_record}
use risu.Risu.Socket.{HasSent, Answered, verdict_byte, compare_record-Answered}
use risu.Risu.Socket.Sending.{
  HasToRead, Obeyed, own_result, stops, stops_later, goes_on, goes_on_later, zero_is_ok,
  send_record-Obeyed,
}

-- The answers that the apprentice gives with a last byte `v`.
abbrev Answers : ℕ → List ℕ → Type 0
Answers v l = (l ≡ v ∷ []) ⊎ (l ≡ 0 ∷ v ∷ [])

one_is_end : res_of 1 ≡ res_end
unfolding res_of
one_is_end = refl

not_zero : (b : ℕ) → b ≡ 0 → ¬ (is_ok (res_of b) ≡ false)
not_zero b e h = let z = ap is_ok zero_is_ok in cc

good :
    (op : RisuOp) (l : List ℕ) (res : RisuResult)
    → Answers 0 l
    → Obeyed op l res []
    → res ≡ own_result op
good op l res h (goes_on e r) = r
good op l res h (goes_on_later e r) = r
good op l res (inl h) (stops b e r n) = absurd (not_zero b (cc) n)
good op l res (inr h) (stops b e r n) = cc
good op l res (inl h) (stops_later b e r n) = cc
good op l res (inr h) (stops_later b e r n) = absurd (not_zero b (cc) n)

bad :
    (op : RisuOp) (l : List ℕ) (res : RisuResult) → Answers 1 l → Obeyed op l res [] → res ≡ res_end
bad op l res (inl h) (goes_on e r) = cc
bad op l res (inr h) (goes_on e r) = cc
bad op l res (inl h) (goes_on_later e r) = cc
bad op l res (inr h) (goes_on_later e r) = cc
bad op l res (inl h) (stops b e r n) = cc (one_is_end)
bad op l res (inr h) (stops b e r n) = cc
bad op l res (inl h) (stops_later b e r n) = cc
bad op l res (inr h) (stops_later b e r n) = cc (one_is_end)

followed :
    (op : RisuOp) (b : Bool) {l : List ℕ} {res : RisuResult}
    → Answers (if b then 0 else 1) l
    → Obeyed op l res []
    → res ≡ (if b then own_result op else res_end)
followed op true {l} {res} h o = good op l res h o
followed op false {l} {res} h o = bad op l res h o

-- One record through a socket, whatever the calls on either descriptor do, on any architecture and
-- for any bytes that reach the apprentice: if the apprentice comes to a result on the record, and
-- the master reads just the answers that the apprentice has sent and comes to a result too, then
-- the master's result is RES_END if the apprentice's is not RES_OK, and if it is RES_OK, it is
-- that of the master's own operation: RES_END for OP_TESTEND and RES_OK for any other.
pub compare_record-send_record :
    (a : Arch) (p q : Platform) (fuel rounds : ℕ) (m n m' n' : State a) (op og : RisuOp)
    (uc vc uc' vc' : a.Ucontext) (sent compared : RisuResult)
    → HasSent [] n
    → compare_record a q rounds og vc n ≡ done (compared, vc', n')
    → HasToRead n'.comm.sent m
    → send_record a p fuel op uc m ≡ done (sent, uc', m')
    → m'.comm.incoming ≡ []
    → sent ≡ (if is_ok compared then own_result op else res_end)
compare_record-send_record a p q fuel rounds m n m' n' op og uc vc uc' vc' sent compared h c k s e =
    followed op (is_ok compared)
      (answers (subst (Always answered) c (compare_record-Answered a q rounds [] og vc n h)))
      (subst (Obeyed op n'.comm.sent sent) e
        (subst (Always obeyed) s (send_record-Obeyed a p fuel n'.comm.sent op uc m k)))
  where
    answered : RisuResult × a.Ucontext × State a → Type 0
    answered (r, x, st) = Answered [] r st

    obeyed : RisuResult × a.Ucontext × State a → Type 0
    obeyed (r, x, st) = Obeyed op n'.comm.sent r st.comm.incoming

    answers : Answered [] compared n' → Answers (verdict_byte compared) n'.comm.sent
    answers (inl x) = inl x.sent
    answers (inr x) = inr x.sent
