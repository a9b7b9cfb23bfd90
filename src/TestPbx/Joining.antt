-- ===== src/TestPbx/Joining.antt =====
-- testpbx/calls.go: which calls an attended transfer leaves connected.
use xk6_sip.Common.{
  ℕ, suc, ◌≡◌, refl, ap, subst, ◌≢◌, inl, inr, Bool, true, false, not, ◌&&◌, Option, none, some,
  arith, if◌then◌else◌, ◌==◌, Bool-cases,
}
use xk6_sip.Common.Text.{Text, cut}
use xk6_sip.Common.Table.{get, put, remove, get-put, get-remove}
use xk6_sip.TestPbx.{Leg, Bridge, Pbx, sdp, other, link}
use xk6_sip.TestPbx.Transfers.{
  Responses, bridged, consultation, join_calls, second_reinvite, attended, attended_with, reinvite,
}
use xk6_sip.TestPbx.Connecting.{
  IsJoined, IsSame, quiet-IsSame, works, reinvite-works, joining, moved-IsJoined,
}
use xk6_sip.TestPbx.Dialling.{IsQuiet, IsQuiet-refl, IsQuiet-trans, reinvite-IsQuiet}

abbrev pub JoinOutcome : Pbx → Leg → Leg → Leg → Leg → Bool → Pbx × ℕ → Type 0
JoinOutcome p transferor consult keep target true (q, status) =
    (status ≡ 200)
    × (q.next ≡ suc p.next)
    × IsJoined p q transferor consult (joining p.next keep target)
JoinOutcome p transferor consult keep target false (q, status) = IsSame p q × (status ≢ 200)

join_calls-IsJoined :
    (p q : Pbx) (transferor consult keep target : Leg)
    → IsQuiet p q
    → JoinOutcome p transferor consult keep target true
        (join_calls q transferor consult keep target, 200)
unfolding join_calls bridged link
join_calls-IsJoined p q transferor consult keep target v =
    let b = joining q.next keep target in
    let cleared = remove (remove q.legs transferor.call_id) consult.call_id in
    (
      refl,
      ap suc v.next,
      moved-IsJoined p q (join_calls q transferor consult keep target) transferor consult keep
          target q.next p.next v.next v.legs v.orphans
          (record {
            table = λ k. ground (
              arith,
              get-put (put cleared keep.call_id b) target.call_id k b,
              get-put cleared keep.call_id k b,
              get-remove (remove q.legs transferor.call_id) consult.call_id k,
              get-remove q.legs transferor.call_id k,
            );
            alone = λ k. get-put q.orphans transferor.call_id k transferor;
          }),
    )

tested-JoinOutcome :
    (p q : Pbx) (transferor consult keep target : Leg) (b : Bool)
    → IsQuiet p q
    → JoinOutcome p transferor consult keep target b
        (if b then (join_calls q transferor consult keep target, 200) else (q, 500))
tested-JoinOutcome p q transferor consult keep target true v =
    join_calls-IsJoined p q transferor consult keep target v
tested-JoinOutcome p q transferor consult keep target false v =
    (quiet-IsSame p q v, λ t. absurd (omega (arith, t)))

second_reinvite-JoinOutcome :
    (p : Pbx) (transferor consult keep target : Leg) (rs : Responses) (r : Pbx × Bool)
    → IsQuiet p (r.0)
    → JoinOutcome p transferor consult keep target
        (r.1 && works rs.target_answer)
        (second_reinvite transferor consult keep target rs r)
unfolding second_reinvite
second_reinvite-JoinOutcome p transferor consult keep target rs (q, false) v =
    (quiet-IsSame p q v, λ t. absurd (omega (arith, t)))
second_reinvite-JoinOutcome p transferor consult keep target rs (q, true) v =
    let r = reinvite q target (sdp q keep) rs.target_answer in
    let w = IsQuiet-trans p q (r.0) v (reinvite-IsQuiet q target (sdp q keep) rs.target_answer) in
    subst
      (λ b.
        JoinOutcome p transferor consult keep target b
          (if r.1 then (join_calls (r.0) transferor consult keep target, 200) else (r.0, 500)))
      (reinvite-works q target (sdp q keep) rs.target_answer)
      (tested-JoinOutcome p (r.0) transferor consult keep target (r.1) w)

-- What an attended transfer comes to, by the bridge that the Call-ID in Replaces has in the table.
abbrev pub AttendedOutcome :
    Pbx → Bridge → Leg → Text → Responses → Option Bridge → Pbx × ℕ → Type 0
AttendedOutcome p br transferor id rs none (q, status) = IsSame p q × (status ≡ 481)
AttendedOutcome p br transferor id rs (some cb) r =
    JoinOutcome p transferor (consultation cb id) (other br transferor)
      (other cb (consultation cb id))
      (not (cb.number == br.number) && (works rs.keep_answer && works rs.target_answer)) r

attended_with-AttendedOutcome :
    (p : Pbx) (br : Bridge) (transferor : Leg) (id : Text) (rs : Responses) (o : Option Bridge)
    → AttendedOutcome p br transferor id rs o (attended_with p br transferor id rs o)
unfolding attended_with
attended_with-AttendedOutcome p br transferor id rs none = (quiet-IsSame p p (IsQuiet-refl p), refl)
attended_with-AttendedOutcome p br transferor id rs (some cb) =
    let consult = consultation cb id in
    let keep = other br transferor in
    let target = other cb consult in
    let r = reinvite p keep (sdp p target) rs.keep_answer in
    elim (Bool-cases (cb.number == br.number)) [
      | inl e ↦ rw e (quiet-IsSame p p (IsQuiet-refl p), λ t. absurd (omega (arith, t)))
      | inr e ↦ rw e (
          subst
            (λ b.
              JoinOutcome p transferor consult keep target (b && works rs.target_answer)
                (second_reinvite transferor consult keep target rs r))
            (reinvite-works p keep (sdp p target) rs.keep_answer)
            (second_reinvite-JoinOutcome p transferor consult keep target rs r
              (reinvite-IsQuiet p keep (sdp p target) rs.keep_answer)))
    ]

pub attended-AttendedOutcome :
    (p : Pbx) (br : Bridge) (transferor : Leg) (replaces : Text) (rs : Responses)
    → AttendedOutcome p br transferor
        ((cut b';' replaces).0)
        rs
        (get p.legs ((cut b';' replaces).0))
        (attended p br transferor replaces rs)
unfolding attended
attended-AttendedOutcome p br transferor replaces rs =
    attended_with-AttendedOutcome p br transferor ((cut b';' replaces).0) rs
      (get p.legs ((cut b';' replaces).0))
