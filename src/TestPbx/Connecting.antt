-- ===== src/TestPbx/Connecting.antt =====
-- testpbx/calls.go: which calls a transfer leaves connected.
use xk6_sip.Common.{
  ℕ, suc, ◌≡◌, refl, ap, ◌∙◌, subst, ◌≢◌, ◌⊎◌, inl, inr, Bool, true, false, ◌&&◌, ◌||◌, Option,
  none, some, [], arith, if◌then◌else◌,
}
use xk6_sip.Common.Text.{Text, text_eq}
use xk6_sip.Common.Table.{Table, get, put, remove, get-put, get-remove}
use xk6_sip.TestPbx.{User, Leg, Bridge, Pbx, sdp, other, link, lookup, contact_of, is_there}
use xk6_sip.TestPbx.Calls.{Dialled, no_leg, rejected, leg, dial, Reply, failed, response}
use xk6_sip.TestPbx.Transfers.{
  Answer, Responses, target_user, orphaned, bridged, connect_target, blind_dialled, blind_to, blind,
  reinvite, accepted,
}
use xk6_sip.TestPbx.Links.{is_end}
use xk6_sip.TestPbx.Dialling.{
  IsRefusal, answers, Answers, dial-Answers, IsQuiet, IsQuiet-refl, Placed, new_id, dial-Placed,
  reinvite-IsQuiet,
}

-- The tables after a transfer: the legs of `b` find `b`, the transferor's leg stands among those
-- without a partner, the consultation leg is gone, and every other Call-ID is found as before.
pub record IsJoined (p q : Pbx) (transferor consult : Leg) (b : Bridge) : Type 0 where
  pub table :
      (k : Text)
      → get q.legs k ≡ (
          if is_end b k
          then some b
          else if text_eq consult.call_id k || text_eq transferor.call_id k
          then none
          else get p.legs k)
  pub alone :
      (k : Text)
      → get q.orphans k
        ≡ (if text_eq transferor.call_id k then some transferor else get p.orphans k)

-- The tables are as they were; a leg that was made is forgotten.
pub record IsSame (p q : Pbx) : Type 0 where
  pub legs : q.legs ≡ p.legs
  pub orphans : q.orphans ≡ p.orphans
  pub grown : (q.next ≡ p.next) ⊎ (q.next ≡ suc p.next)

pub quiet-IsSame : (p q : Pbx) → IsQuiet p q → IsSame p q
quiet-IsSame p q v = record { legs = v.legs; orphans = v.orphans; grown = inl v.next }

abbrev pub is_accepted : Reply → Bool
is_accepted failed = false
is_accepted (response status ok reason body) = ok

abbrev pub works : Answer → Bool
works a = is_accepted a.reply && a.acked

accepted-works :
    (p : Pbx) (l : Leg) (a : Answer) (r : Reply) → (accepted p l a r).1 ≡ (is_accepted r && a.acked)
unfolding accepted
accepted-works p l a failed = refl
accepted-works p l a (response status ok reason body) = ground arith

pub reinvite-works :
    (p : Pbx) (l : Leg) (offer : Text) (a : Answer) → (reinvite p l offer a).1 ≡ works a
unfolding reinvite
reinvite-works p l offer a = accepted-works _ l a a.reply

bridged-IsJoined :
    (p : Pbx) (transferor keep target : Leg)
    → IsJoined p
        (bridged (orphaned p transferor) keep target)
        transferor
        transferor
        (record { number = p.next; x = keep; y = target })
unfolding bridged link
bridged-IsJoined p transferor keep target = record {
  table = λ k. ground (
    arith,
    get-put
        (put (remove p.legs transferor.call_id) keep.call_id
          (record { number = p.next; x = keep; y = target }))
        target.call_id k (record { number = p.next; x = keep; y = target }),
    get-put (remove p.legs transferor.call_id) keep.call_id k
        (record { number = p.next; x = keep; y = target }),
    get-remove p.legs transferor.call_id k,
  );
  alone = λ k. get-put p.orphans transferor.call_id k transferor;
}

abbrev pub joining : ℕ → Leg → Leg → Bridge
joining number keep target = record { number = number; x = keep; y = target }

bridged-next :
    (p : Pbx) (transferor keep target : Leg)
    → (bridged (orphaned p transferor) keep target).next ≡ suc p.next
unfolding bridged link
bridged-next p transferor keep target = refl

-- What was joined after requests that left the table as it was.
pub moved-IsJoined :
    (p q r : Pbx) (transferor consult keep target : Leg) (n m : ℕ)
    → n ≡ m
    → q.legs ≡ p.legs
    → q.orphans ≡ p.orphans
    → IsJoined q r transferor consult (joining n keep target)
    → IsJoined p r transferor consult (joining m keep target)
moved-IsJoined p q r transferor consult keep target n m e legs orphans j =
    subst (λ i. IsJoined p r transferor consult (joining i keep target)) e
      (record {
        table = λ k.
            j.table k
            ∙ ap
                (λ (t : Table Bridge).
                  if is_end (joining n keep target) k
                  then some (joining n keep target)
                  else if text_eq consult.call_id k || text_eq transferor.call_id k
                  then none
                  else get t k)
                legs;
        alone = λ k.
            j.alone k
            ∙ ap
                (λ (t : Table Leg).
                  if text_eq transferor.call_id k then some transferor else get t k)
                orphans;
      })

abbrev pub BlindOutcome : Pbx → Leg → Leg → Text → Bool → Pbx × ℕ → Type 0
BlindOutcome p transferor keep id true (q, status) =
    (status ≡ 200)
    × ((target : Leg) × (target.handle ≡ p.next)
        × (target.call_id ≡ id)
        × (q.next ≡ suc (suc p.next))
        × IsJoined p q transferor transferor (joining (suc p.next) keep target))
BlindOutcome p transferor keep id false (q, status) = IsSame p q × (status ≢ 200)

connect_target-BlindOutcome :
    (p s : Pbx) (transferor keep l : Leg) (id : Text) (r : Pbx × Bool)
    → Placed p id (s, leg l)
    → IsQuiet s (r.0)
    → BlindOutcome p transferor keep id (r.1) (connect_target transferor keep l r)
unfolding connect_target
connect_target-BlindOutcome p s transferor keep l id (q, false) w v = (
  record { legs = v.legs ∙ w.0; orphans = v.orphans ∙ w.1; grown = inr (v.next ∙ w.2) },
  λ t. absurd (omega (arith, t)),
)
connect_target-BlindOutcome p s transferor keep l id (q, true) w v =
    let j = bridged-IsJoined q transferor keep l in
    let n = v.next ∙ w.2 in
    (
      refl,
      (
        l,
        w.3,
        w.4,
        bridged-next q transferor keep l ∙ ap suc n,
        moved-IsJoined p q (bridged (orphaned q transferor) keep l) transferor transferor keep l
            q.next (suc p.next) n (v.legs ∙ w.0) (v.orphans ∙ w.1) j,
      ),
    )

blind_dialled-BlindOutcome :
    (p : Pbx) (transferor keep : Leg) (id : Text) (rs : Responses) (w : Bool) (d : Pbx × Dialled)
    → Placed p id d
    → Answers w (d.1)
    → BlindOutcome p transferor keep id
        (w && works rs.keep_answer)
        (blind_dialled transferor keep rs d)
unfolding blind_dialled
blind_dialled-BlindOutcome p transferor keep id rs w (q, no_leg) v a =
    rw a (quiet-IsSame p q v, λ t. absurd (omega (arith, t)))
blind_dialled-BlindOutcome p transferor keep id rs w (q, rejected status reason) v a =
    rw (a.0) (quiet-IsSame p q v, a.1)
blind_dialled-BlindOutcome p transferor keep id rs w (q, leg l) v a =
    let r = reinvite q keep (sdp q l) rs.keep_answer in
    rw a (
      subst (λ b. BlindOutcome p transferor keep id b (connect_target transferor keep l r))
        (reinvite-works q keep (sdp q l) rs.keep_answer)
        (connect_target-BlindOutcome p q transferor keep l id r v
          (reinvite-IsQuiet q keep (sdp q l) rs.keep_answer)))

-- Whether a blind transfer comes through: the target is a user who is registered, it answers, and
-- the other party takes the new media.
abbrev pub blind_works : Pbx → Responses → Option User → Bool
blind_works p rs none = false
blind_works p rs (some c) = is_there (contact_of p c) && answers rs.end && works rs.keep_answer

blind_to-BlindOutcome :
    (p : Pbx) (transferor keep : Leg) (rs : Responses) (u : Option User)
    → IsRefusal rs.end
    → BlindOutcome p transferor keep
        (new_id rs.end)
        (blind_works p rs u)
        (blind_to p transferor keep rs u)
unfolding blind_to
blind_to-BlindOutcome p transferor keep rs none h =
    (quiet-IsSame p p (IsQuiet-refl p), λ t. absurd (omega (arith, t)))
blind_to-BlindOutcome p transferor keep rs (some c) h =
    blind_dialled-BlindOutcome p transferor keep (new_id rs.end) rs
      (is_there (contact_of p c) && answers rs.end) (dial p c keep.owner (sdp p keep) [] rs.end)
      (dial-Placed p c keep.owner (sdp p keep) [] rs.end)
      (dial-Answers p c keep.owner (sdp p keep) [] rs.end h)

pub blind-BlindOutcome :
    (p : Pbx) (br : Bridge) (transferor : Leg) (target : Text) (rs : Responses)
    → IsRefusal rs.end
    → BlindOutcome p transferor
        (other br transferor)
        (new_id rs.end)
        (blind_works p rs (lookup p (target_user target)))
        (blind p br transferor target rs)
unfolding blind
blind-BlindOutcome p br transferor target rs h =
    blind_to-BlindOutcome p transferor (other br transferor) rs (lookup p (target_user target)) h
