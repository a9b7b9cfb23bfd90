-- ===== src/TestPbx/Serving/Inviting.antt =====
-- testpbx/calls.go: what an INVITE and a BYE leave in the table.
use xk6_sip.Common.{
  ℕ, suc, ◌+◌, ◌≡◌, refl, sym, ap, ◌∙◌, subst, ◌⊎◌, inl, inr, Bool, true, false, some, [], arith,
  if◌then◌else◌, if_both,
}
use xk6_sip.Common.Text.{Text, codes, text_eq→eq}
use xk6_sip.Common.Table.{Table, get, put, remove, get-put, get-remove}
use xk6_sip.TestPbx.{Leg, Bridge, Pbx, Sent, respond, send, link, unlink}
use xk6_sip.TestPbx.Calls.{Dialled, no_leg, rejected, leg, Serving, connect, after_dial}
use xk6_sip.TestPbx.Links.{is_end}
use xk6_sip.TestPbx.Dialling.{IsQuiet, Placed}
use xk6_sip.TestPbx.Connecting.{joining}
use xk6_sip.TestPbx.Relinking.{Free}

-- The calls are as they were.
pub record IsUnmoved (p q : Pbx) : Type 0 where
  pub table : (k : Text) → get q.legs k ≡ get p.legs k
  pub alone : (k : Text) → get q.orphans k ≡ get p.orphans k
  pub more : ℕ
  pub grown : q.next ≡ more + p.next

-- The caller's leg and a new one are connected, and every other call is as before.
pub record IsConnected (p q : Pbx) (a_id b_id : Text) : Type 0 where
  pub a : Leg
  pub b : Leg
  pub number : ℕ
  pub a_made : (a.handle ≡ p.next) × (a.call_id ≡ a_id)
  pub b_made : (b.handle ≡ suc p.next) × (b.call_id ≡ b_id)
  pub grown : q.next ≡ suc (suc (suc p.next))
  pub table :
      (k : Text)
      → get q.legs k
        ≡ (if is_end (joining number a b) k then some (joining number a b) else get p.legs k)
  pub alone : (k : Text) → get q.orphans k ≡ get p.orphans k

abbrev pub InviteOutcome : Pbx → Text → Text → Pbx → Type 0
InviteOutcome p a_id b_id q = IsUnmoved p q ⊎ IsConnected p q a_id b_id

pub quiet-IsUnmoved :
    (p q : Pbx) (d : ℕ)
    → q.legs ≡ p.legs
    → q.orphans ≡ p.orphans
    → q.next ≡ d + p.next
    → IsUnmoved p q
quiet-IsUnmoved p q d legs orphans next = record {
  table = λ k. ap (λ (t : Table Bridge). get t k) legs;
  alone = λ k. ap (λ (t : Table Leg). get t k) orphans;
  more = d;
  grown = next;
}

connect-outcome :
    (p s : Pbx) (a b : Leg) (written : Bool)
    → Free (get p.legs) (get p.orphans) a.call_id
    → Free (get p.legs) (get p.orphans) b.call_id
    → a.handle ≡ p.next
    → s.legs ≡ p.legs
    → s.orphans ≡ p.orphans
    → s.next ≡ suc (suc p.next)
    → b.handle ≡ suc p.next
    → InviteOutcome p a.call_id b.call_id (connect s a b written)
unfolding connect link unlink
connect-outcome p s a b true fa fb made legs orphans next b_made =
    let br = joining s.next a b in
    inr (record {
      a = a;
      b = b;
      number = s.next;
      a_made = (made, refl);
      b_made = (b_made, refl);
      grown = ap suc next;
      table = λ k. ground (
        arith,
        get-put (put s.legs a.call_id br) b.call_id k br,
        get-put s.legs a.call_id k br,
        ap (λ (t : Table Bridge). get t k) legs,
      );
      alone = λ k. ap (λ (t : Table Leg). get t k) orphans;
    })
connect-outcome p s a b false fa fb made legs orphans next b_made =
    let br = joining s.next a b in
    let m = put (put s.legs a.call_id br) b.call_id br in
    inl (record {
      table = λ k. ground (
        arith,
        get-remove (remove m a.call_id) b.call_id k,
        get-remove m a.call_id k,
        get-put (put s.legs a.call_id br) b.call_id k br,
        get-put s.legs a.call_id k br,
        ap (λ (t : Table Bridge). get t k) legs,
        text_eq→eq a.call_id k,
        text_eq→eq b.call_id k,
        fa.0,
        fb.0,
      );
      alone = λ k. ground (
        arith,
        get-remove (remove s.orphans a.call_id) b.call_id k,
        get-remove s.orphans a.call_id k,
        ap (λ (t : Table Leg). get t k) orphans,
        text_eq→eq a.call_id k,
        text_eq→eq b.call_id k,
        fa.1,
        fb.1,
      );
      more = 3;
      grown = omega (arith, next);
    })

one_more : {n m : ℕ} → n ≡ suc m → n ≡ 1 + m
one_more e = omega (arith, e)

-- `s` is the state when the called is rung: only the caller's leg was allocated.
pub after_dial-outcome :
    (p s : Pbx) (a : Leg) (run : Serving) (id : Text) (d : Pbx × Dialled)
    → Free (get p.legs) (get p.orphans) a.call_id
    → Free (get p.legs) (get p.orphans) id
    → a.handle ≡ p.next
    → s.legs ≡ p.legs
    → s.orphans ≡ p.orphans
    → s.next ≡ suc p.next
    → Placed s id d
    → InviteOutcome p a.call_id id (after_dial a run d)
unfolding after_dial
after_dial-outcome p s a run id (q, no_leg) fa fb made legs orphans next w =
    if_both (InviteOutcome p a.call_id id) run.cancelled
      (inl (quiet-IsUnmoved p q 1 (w.legs ∙ legs) (w.orphans ∙ orphans) (one_more (w.next ∙ next))))
      (inl (
        quiet-IsUnmoved p (send q (respond 408 (codes "Request Timeout") [])) 1 (w.legs ∙ legs)
          (w.orphans ∙ orphans) (one_more (w.next ∙ next))))
after_dial-outcome p s a run id (q, rejected status reason) fa fb made legs orphans next w = inl (
    quiet-IsUnmoved p (send q (respond status reason [])) 1 (w.legs ∙ legs) (w.orphans ∙ orphans)
      (one_more (w.next ∙ next)))
after_dial-outcome p s a run id (q, leg b) fa fb made legs orphans next w =
    subst (λ i. InviteOutcome p a.call_id i (connect q a b run.written)) (w.4)
      (connect-outcome p q a b run.written fa
        (subst (Free (get p.legs) (get p.orphans)) (sym w.4) fb) made (w.0 ∙ legs) (w.1 ∙ orphans)
        (w.2 ∙ ap suc next) (w.3 ∙ next))

pub sent-outcome :
    (p q : Pbx) (a_id b_id : Text) (m : Sent)
    → InviteOutcome p a_id b_id q
    → InviteOutcome p a_id b_id (send q m)
sent-outcome p q a_id b_id m (inl u) =
    inl (record { table = u.table; alone = u.alone; more = u.more; grown = u.grown })
sent-outcome p q a_id b_id m (inr u) = inr (record {
  a = u.a;
  b = u.b;
  number = u.number;
  a_made = u.a_made;
  b_made = u.b_made;
  grown = u.grown;
  table = u.table;
  alone = u.alone;
})

-- What the caller's INVITE comes to may be told from any state with the same calls.
pub quiet-outcome :
    (p s q : Pbx) (a_id b_id : Text)
    → IsQuiet p s
    → InviteOutcome s a_id b_id q
    → InviteOutcome p a_id b_id q
quiet-outcome p s q a_id b_id w (inl u) = inl (record {
  table = λ k. u.table k ∙ ap (λ (t : Table Bridge). get t k) w.legs;
  alone = λ k. u.alone k ∙ ap (λ (t : Table Leg). get t k) w.orphans;
  more = u.more;
  grown = u.grown ∙ ap (λ n. u.more + n) w.next;
})
quiet-outcome p s q a_id b_id w (inr u) = inr (record {
  a = u.a;
  b = u.b;
  number = u.number;
  a_made = (u.a_made.0 ∙ w.next, u.a_made.1);
  b_made = (u.b_made.0 ∙ ap suc w.next, u.b_made.1);
  grown = u.grown ∙ ap (λ n. suc (suc (suc n))) w.next;
  table = λ k.
      u.table k
      ∙ ap
          (λ (t : Table Bridge).
            if is_end (joining u.number u.a u.b) k
            then some (joining u.number u.a u.b)
            else get t k)
          w.legs;
  alone = λ k. u.alone k ∙ ap (λ (t : Table Leg). get t k) w.orphans;
})
